-- ===== src/Redis/Delete.antt =====
-- The Redis store's operations on DeleteDesires.
use hyperfleet_applier.Memory.Record.{empty_delete_desire, ResourceRecord, project_delete_desire}
use hyperfleet_applier.Base.{ℕ, Option, none, some, List, [], ◌∷◌, eqb, if◌then◌else◌, ◌==◌}
use hyperfleet_applier.Base.Text.{Text, text_Eq}
use hyperfleet_applier.Base.Result.{Result, ok, err, guard, ◌>>=◌, ◌>>◌}
use hyperfleet_applier.Desire.Types.{DesireType, type_delete, Identity, Status, DeleteDesire}
use hyperfleet_applier.Desire.Platform.{Platform}
use hyperfleet_applier.Desire.Validate.{
  Error, not_found, already_exists, version_conflict, validate_delete,
}
use hyperfleet_applier.Memory.Apply.{with_status}
use hyperfleet_applier.Memory.Delete.{new_delete_record}
use hyperfleet_applier.Redis.Client.{Client, Codec}
use hyperfleet_applier.Redis.Key.{redis_key}
use hyperfleet_applier.Redis.Cas.{
  Stop, fail, Siblings, load_record, cas_mutate, cas_delete, cas_create,
}
use hyperfleet_applier.Redis.Apply.{
  check_owner_tx, check_sibling_owner, project_result, drop_result,
}

-- `!exists` is ErrNotFound
unfoldable pub require_record : Option ResourceRecord → Result Stop ResourceRecord
require_record none = err (fail not_found)
require_record (some rec) = ok rec

-- the keys that a new DeleteDesire deletes
abbrev pub superseded : (Text → Text) → Option ResourceRecord → List Text
superseded path_escape none = []
superseded path_escape (some apply) = redis_key path_escape apply.identity ∷ []

-- the closure of CreateDeleteDesire
unfoldable pub build_delete :
    (Text → Text) → DeleteDesire → Siblings → Result Stop (ResourceRecord × List Text)
unfolding check_sibling_owner new_delete_record
build_delete path_escape d sibs = do
  check_sibling_owner d.owner sibs
  elim sibs.delete [
    | some _ ↦ err (fail already_exists)
    | none ↦ ok (new_delete_record d, superseded path_escape sibs.apply)
  ]

-- the closure of UpdateDeleteDesireStatus
unfoldable pub restatus_delete : Status → ℕ → Option ResourceRecord → Result Stop ResourceRecord
unfolding require_record with_status
restatus_delete status version was = do
  rec ← require_record was
  guard (eqb rec.version version) (fail version_conflict)
  ok (with_status rec status)

-- the closure of DeleteDeleteDesire and of DeleteReadDesire
unfoldable pub check_delete : Text → ℕ → Option ResourceRecord → Result Stop (Unit {0})
unfolding require_record check_owner_tx
check_delete owner version was = do
  rec ← require_record was
  guard (eqb rec.version version) (fail version_conflict)
  check_owner_tx rec.owner owner

module _ {R J : Type 0} (c : Client R) (codec : Codec) (path_escape : Text → Text)
    (p : Platform J) where
  unfoldable pub create_delete_desire : DeleteDesire → R → Result Error DeleteDesire × R
  create_delete_desire d r = elim (validate_delete p d) [
    | err e ↦ (err e, r)
    | ok _ ↦
        project_result project_delete_desire empty_delete_desire
          (cas_create c codec path_escape d.identity (build_delete path_escape d) r)
  ]

module _ {R : Type 0} (c : Client R) (codec : Codec) (path_escape : Text → Text) where
  unfoldable pub get_delete_desire : Identity → R → Result Error DeleteDesire × R
  get_delete_desire id r = (
    (do
      guard (id.type == type_delete) not_found
      rec ← load_record codec (c.get r) (redis_key path_escape id)
      ok (project_delete_desire rec)),
    r,
  )

  unfoldable pub update_delete_desire_status :
      Identity → Status → ℕ → R → Result Error DeleteDesire × R
  update_delete_desire_status id status version r =
      if id.type == type_delete
      then project_result project_delete_desire empty_delete_desire
          (cas_mutate c codec (redis_key path_escape id) (restatus_delete status version) r)
      else (err not_found, r)

  -- DeleteDeleteDesire and DeleteReadDesire are one text but for the type `t` of the desire.
  unfoldable pub delete_desire_of :
      DesireType → Identity → Text → ℕ → R → Result Error (Unit {0}) × R
  delete_desire_of t id owner version r =
      if id.type == t
      then drop_result
          (cas_delete c codec (redis_key path_escape id) (check_delete owner version) r)
      else (err not_found, r)

  unfoldable pub delete_delete_desire : Identity → Text → ℕ → R → Result Error (Unit {0}) × R
  unfolding delete_desire_of
  delete_delete_desire = delete_desire_of type_delete

-- ===== src/Redis/Read.antt =====
-- The Redis store's operations on ReadDesires.
use hyperfleet_applier.Memory.Record.{empty_read_desire, ResourceRecord, project_read_desire}
use hyperfleet_applier.Base.{ℕ, Option, none, some, List, [], if◌then◌else◌, ◌==◌}
use hyperfleet_applier.Base.Text.{Text, text_Eq}
use hyperfleet_applier.Base.Result.{Result, ok, err, guard, ◌>>=◌, ◌>>◌}
use hyperfleet_applier.Desire.Types.{type_read, Identity, ReadStatus, ReadDesire}
use hyperfleet_applier.Desire.Platform.{Platform}
use hyperfleet_applier.Desire.Validate.{Error, not_found, already_exists, validate_read}
use hyperfleet_applier.Memory.Read.{new_read_record, with_read_status}
use hyperfleet_applier.Redis.Client.{Client, Codec}
use hyperfleet_applier.Redis.Key.{redis_key}
use hyperfleet_applier.Redis.Cas.{Stop, fail, Siblings, load_record, cas_mutate, cas_create}
use hyperfleet_applier.Redis.Apply.{check_sibling_owner, project_result}
use hyperfleet_applier.Redis.Delete.{require_record, delete_desire_of}

-- the closure of CreateReadDesire
unfoldable pub build_read : ReadDesire → Siblings → Result Stop (ResourceRecord × List Text)
unfolding check_sibling_owner new_read_record
build_read d sibs = do
  check_sibling_owner d.owner sibs
  elim sibs.read [ some _ ↦ err (fail already_exists) | none ↦ ok (new_read_record d, []) ]

-- the closure of UpdateReadDesireStatus
unfoldable pub restatus_read : ReadStatus → Option ResourceRecord → Result Stop ResourceRecord
unfolding require_record with_read_status
restatus_read status was = do rec ← require_record was; ok (with_read_status rec status)

module _ {R J : Type 0} (c : Client R) (codec : Codec) (path_escape : Text → Text)
    (p : Platform J) where
  unfoldable pub create_read_desire : ReadDesire → R → Result Error ReadDesire × R
  create_read_desire d r = elim (validate_read p d) [
    | err e ↦ (err e, r)
    | ok _ ↦
        project_result project_read_desire empty_read_desire
          (cas_create c codec path_escape d.identity (build_read d) r)
  ]

module _ {R : Type 0} (c : Client R) (codec : Codec) (path_escape : Text → Text) where
  unfoldable pub get_read_desire : Identity → R → Result Error ReadDesire × R
  get_read_desire id r = (
    (do
      guard (id.type == type_read) not_found
      rec ← load_record codec (c.get r) (redis_key path_escape id)
      ok (project_read_desire rec)),
    r,
  )

  unfoldable pub update_read_desire_status : Identity → ReadStatus → R → Result Error ReadDesire × R
  update_read_desire_status id status r =
      if id.type == type_read
      then project_result project_read_desire empty_read_desire
          (cas_mutate c codec (redis_key path_escape id) (restatus_read status) r)
      else (err not_found, r)

  unfoldable pub delete_read_desire : Identity → Text → ℕ → R → Result Error (Unit {0}) × R
  unfolding delete_desire_of
  delete_read_desire = delete_desire_of c codec path_escape type_read

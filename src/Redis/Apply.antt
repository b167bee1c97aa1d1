-- ===== src/Redis/Apply.antt =====
-- The Redis store's operations on ApplyDesires. The counter of owner conflicts is not part of this
-- state: it goes up once for each operation that returns `owner_conflict`, which ends a retry loop.
use hyperfleet_applier.Memory.Record.{empty_apply_desire, ResourceRecord, project_apply_desire}
use hyperfleet_applier.Base.{ℕ, Option, none, some, List, [], ◌∷◌, eqb, if◌then◌else◌, ◌==◌}
use hyperfleet_applier.Base.Text.{Text, text_Eq}
use hyperfleet_applier.Base.Result.{Result, ok, err, guard, ◌>>=◌, ◌>>◌}
use hyperfleet_applier.Desire.Types.{Identity, Status, ApplySpec, ApplyDesire}
use hyperfleet_applier.Desire.Platform.{Platform}
use hyperfleet_applier.Desire.Validate.{
  Error, not_found, already_exists, version_conflict, owner_conflict, delete_pending,
  validate_apply, validate_spec,
}
use hyperfleet_applier.Desire.Contract.{is_deleted}
use hyperfleet_applier.Memory.Apply.{new_apply_record, respecified, with_status}
use hyperfleet_applier.Redis.Client.{Client, Codec}
use hyperfleet_applier.Redis.Key.{redis_key}
use hyperfleet_applier.Redis.Cas.{
  Stop, fail, Siblings, load_record, cas_mutate, cas_delete, cas_create,
}

-- desire.CheckOwner in a transaction body
unfoldable pub check_owner_tx : Text → Text → Result Stop (Unit {0})
check_owner_tx existing attempted = guard (existing == attempted) (fail owner_conflict)

-- checkTargetOwner: the first sibling that is there decides
unfoldable pub check_sibling_owner : Text → Siblings → Result Stop (Unit {0})
unfolding check_owner_tx
check_sibling_owner attempted sibs = elim sibs.apply [
  | some r ↦ check_owner_tx r.owner attempted
  | none ↦ elim sibs.delete [
    | some r ↦ check_owner_tx r.owner attempted
    | none ↦ elim sibs.read [ some r ↦ check_owner_tx r.owner attempted | none ↦ ok tt ]
  ]
]

-- `if err != nil { return ApplyDesire{}, err }; return project(rec)`
abbrev pub project_result {ℓ} :
    {D R : Type ℓ}
    → (ResourceRecord → D)
    → D
    → Result Error (Option ResourceRecord) × R
    → Result Error D × R
project_result project zero_desire (err e, r) = (err e, r)
project_result project zero_desire (ok none, r) = (ok zero_desire, r)
project_result project zero_desire (ok (some rec), r) = (ok (project rec), r)

-- `!exists || rec.Apply == nil` is ErrNotFound
unfoldable pub require_apply : Option ResourceRecord → Result Stop (ResourceRecord × ApplySpec)
require_apply none = err (fail not_found)
require_apply (some rec) = elim rec.apply [
  | none ↦ err (fail not_found)
  | some spec ↦ ok (rec, spec)
]

module _ {J : Type 0} (p : Platform J) where
  -- the closure of UpdateApplyDesireSpec
  unfoldable pub respecify :
      ApplySpec → Text → ℕ → Option ResourceRecord → Result Stop ResourceRecord
  respecify spec owner version was = do
    (rec, old) ← require_apply was
    guard (eqb rec.version version) (fail version_conflict)
    check_owner_tx rec.owner owner
    ok (respecified p rec old spec)

  -- the closure of CreateApplyDesire
  unfoldable pub build_apply :
      (Text → Text) → ApplyDesire → Siblings → Result Stop (ResourceRecord × List Text)
  unfolding check_sibling_owner new_apply_record
  build_apply path_escape d sibs = do
    check_sibling_owner d.owner sibs
    elim sibs.delete [
      | some deleted ↦
          if is_deleted p deleted.status
          then ok (new_apply_record d, redis_key path_escape deleted.identity ∷ [])
          else err (fail delete_pending)
      | none ↦ elim sibs.apply [
        | some _ ↦ err (fail already_exists)
        | none ↦ ok (new_apply_record d, [])
      ]
    ]

-- the closure of UpdateApplyDesireStatus
unfoldable pub restatus_apply : Status → ℕ → Option ResourceRecord → Result Stop ResourceRecord
restatus_apply status version was = do
  (rec, _) ← require_apply was
  guard (eqb rec.version version) (fail version_conflict)
  ok (with_status rec status)

-- the closure of DeleteApplyDesire
unfoldable pub check_delete_apply : Text → ℕ → Option ResourceRecord → Result Stop (Unit {0})
check_delete_apply owner version was = do
  (rec, _) ← require_apply was
  guard (eqb rec.version version) (fail version_conflict)
  check_owner_tx rec.owner owner

module _ {R J : Type 0} (c : Client R) (codec : Codec) (path_escape : Text → Text)
    (p : Platform J) where
  unfoldable pub create_apply_desire : ApplyDesire → R → Result Error ApplyDesire × R
  create_apply_desire d r = elim (validate_apply p d) [
    | err e ↦ (err e, r)
    | ok _ ↦
        project_result project_apply_desire empty_apply_desire
          (cas_create c codec path_escape d.identity (build_apply p path_escape d) r)
  ]

  unfoldable pub update_apply_desire_spec :
      Identity → ApplySpec → Text → ℕ → R → Result Error ApplyDesire × R
  update_apply_desire_spec id spec owner version r = elim (validate_spec p spec) [
    | err e ↦ (err e, r)
    | ok _ ↦
        project_result project_apply_desire empty_apply_desire
          (cas_mutate c codec (redis_key path_escape id) (respecify p spec owner version) r)
  ]

-- `return err` of a delete, whose body has no value
abbrev pub drop_result {ℓ} :
    {R : Type ℓ} → Result Error (Option (Unit {0})) × R → Result Error (Unit {0}) × R
drop_result (err e, r) = (err e, r)
drop_result (ok _, r) = (ok tt, r)

module _ {R : Type 0} (c : Client R) (codec : Codec) (path_escape : Text → Text) where
  -- there is no check of the identity's type here: a record of another type has no spec
  unfoldable pub get_apply_desire : Identity → R → Result Error ApplyDesire × R
  get_apply_desire id r = (
    (do
      rec ← load_record codec (c.get r) (redis_key path_escape id)
      elim rec.apply [ none ↦ err not_found | some _ ↦ ok (project_apply_desire rec) ]),
    r,
  )

  unfoldable pub update_apply_desire_status :
      Identity → Status → ℕ → R → Result Error ApplyDesire × R
  update_apply_desire_status id status version r =
      project_result project_apply_desire empty_apply_desire
        (cas_mutate c codec (redis_key path_escape id) (restatus_apply status version) r)

  unfoldable pub delete_apply_desire : Identity → Text → ℕ → R → Result Error (Unit {0}) × R
  delete_apply_desire id owner version r =
      drop_result
        (cas_delete c codec (redis_key path_escape id) (check_delete_apply owner version) r)

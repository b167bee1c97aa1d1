-- ===== src/Memory/Apply.antt =====
-- The store's operations on ApplyDesires.
use hyperfleet_applier.Base.{ℕ, none, some, [], eqb, if◌then◌else◌, ◌==◌}
use hyperfleet_applier.Base.Text.{Text, text_Eq}
use hyperfleet_applier.Base.Dict.{lookup}
use hyperfleet_applier.Base.Exec.{lift, pure, raise, ◌>>=◌, ◌>>◌}
use hyperfleet_applier.Base.Result.{ok, err, guard}
use hyperfleet_applier.Desire.Types.{
  type_apply, type_delete, initial_generation, Identity, identity_Eq, Status, ApplySpec,
  ApplyDesire,
}
use hyperfleet_applier.Desire.Platform.{Platform}
use hyperfleet_applier.Desire.Validate.{
  not_found, version_conflict, delete_pending, validate_apply, validate_spec,
}
use hyperfleet_applier.Desire.Contract.{is_deleted, spec_equal}
use hyperfleet_applier.Memory.Record.{
  ResourceRecord, Op, increment, with_type, check_owner_in, check_target_owner, store_record,
  delete_record, refuse_existing, empty_status, empty_read_status, project_apply_desire,
}

unfoldable pub new_apply_record : ApplyDesire → ResourceRecord
new_apply_record d = record {
  apply = some d.spec;
  identity = d.identity;
  origin_id = d.origin_id;
  owner = d.owner;
  target_version = [];
  read_status = empty_read_status;
  status = empty_status;
  generation = initial_generation;
  version = 1;
}

-- rec, exists := s.items[id], where `!exists || rec.Apply == nil` is ErrNotFound
unfoldable pub find_apply : Identity → Op (ResourceRecord × ApplySpec)
find_apply id s = elim (lookup id s.items) [
  | none ↦ raise not_found s
  | some rec ↦ elim rec.apply [ none ↦ raise not_found s | some spec ↦ pure (rec, spec) s ]
]

module _ {J : Type 0} (p : Platform J) where
  -- A pending delete refuses the apply; a completed one is retired.
  unfoldable pub retire_delete : Identity → Op (Unit {0})
  unfolding delete_record
  retire_delete delete_id s = elim (lookup delete_id s.items) [
    | none ↦ (ok tt, s)
    | some rec ↦
        if is_deleted p rec.status then delete_record delete_id s else (err delete_pending, s)
  ]

  unfoldable pub create_apply_desire : ApplyDesire → Op ApplyDesire
  create_apply_desire d = do
    lift (validate_apply p d)
    check_target_owner d.identity d.owner
    retire_delete (with_type type_delete d.identity)
    refuse_existing d.identity
    store_record d.identity (new_apply_record d)
    pure (project_apply_desire (new_apply_record d))

  -- the record that an accepted spec update leaves
  unfoldable pub respecified : ResourceRecord → ApplySpec → ApplySpec → ResourceRecord
  respecified rec old spec = record rec {
    generation = if spec_equal p old spec then rec.generation else increment rec.generation;
    apply = some spec;
    version = increment rec.version;
  }

  unfoldable pub update_apply_desire_spec : Identity → ApplySpec → Text → ℕ → Op ApplyDesire
  update_apply_desire_spec id spec owner version = do
    lift (guard (id.type == type_apply) not_found)
    lift (validate_spec p spec)
    (rec, old) ← find_apply id
    lift (guard (eqb rec.version version) version_conflict)
    check_owner_in rec.owner owner
    store_record id (respecified rec old spec)
    pure (project_apply_desire (respecified rec old spec))

unfoldable pub get_apply_desire : Identity → Op ApplyDesire
get_apply_desire id = do
  lift (guard (id.type == type_apply) not_found)
  (rec, _) ← find_apply id
  pure (project_apply_desire rec)

unfoldable pub delete_apply_desire : Identity → Text → ℕ → Op (Unit {0})
delete_apply_desire id owner version = do
  lift (guard (id.type == type_apply) not_found)
  (rec, _) ← find_apply id
  lift (guard (eqb rec.version version) version_conflict)
  check_owner_in rec.owner owner
  delete_record id

-- rec.Status = status; rec.Version++
unfoldable pub with_status : ResourceRecord → Status → ResourceRecord
with_status rec status = record rec { status = status; version = increment rec.version }

unfoldable pub update_apply_desire_status : Identity → Status → ℕ → Op ApplyDesire
update_apply_desire_status id status version = do
  lift (guard (id.type == type_apply) not_found)
  (rec, _) ← find_apply id
  lift (guard (eqb rec.version version) version_conflict)
  store_record id (with_status rec status)
  pure (project_apply_desire (with_status rec status))

-- ===== src/Memory/Delete.antt =====
-- The store's operations on DeleteDesires.
use hyperfleet_applier.Base.{ℕ, none, some, [], eqb, ◌==◌}
use hyperfleet_applier.Base.Text.{Text, text_Eq}
use hyperfleet_applier.Base.Dict.{lookup}
use hyperfleet_applier.Base.Exec.{lift, pure, raise, ◌>>=◌, ◌>>◌}
use hyperfleet_applier.Base.Result.{guard}
use hyperfleet_applier.Desire.Types.{
  DesireType, type_apply, type_delete, initial_generation, Identity, identity_Eq, Status,
  DeleteDesire,
}
use hyperfleet_applier.Desire.Platform.{Platform}
use hyperfleet_applier.Desire.Validate.{not_found, version_conflict, validate_delete}
use hyperfleet_applier.Memory.Record.{
  ResourceRecord, Op, with_type, check_owner_in, check_target_owner, store_record, delete_record,
  refuse_existing, empty_status, empty_read_status, project_delete_desire,
}
use hyperfleet_applier.Memory.Apply.{with_status}

unfoldable pub new_delete_record : DeleteDesire → ResourceRecord
new_delete_record d = record {
  apply = none;
  identity = d.identity;
  origin_id = d.origin_id;
  owner = d.owner;
  target_version = [];
  read_status = empty_read_status;
  status = empty_status;
  generation = initial_generation;
  version = 1;
}

-- rec, exists := s.items[id], where `!exists` is ErrNotFound
unfoldable pub find_record : Identity → Op ResourceRecord
find_record id s = elim (lookup id s.items) [ none ↦ raise not_found s | some rec ↦ pure rec s ]

-- DeleteDeleteDesire and DeleteReadDesire are one text but for the type `t` of the desire.
unfoldable pub delete_desire_of : DesireType → Identity → Text → ℕ → Op (Unit {0})
delete_desire_of t id owner version = do
  lift (guard (id.type == t) not_found)
  rec ← find_record id
  lift (guard (eqb rec.version version) version_conflict)
  check_owner_in rec.owner owner
  delete_record id

module _ {J : Type 0} (p : Platform J) where
  -- The delete supersedes an existing apply of the same target.
  unfoldable pub create_delete_desire : DeleteDesire → Op DeleteDesire
  create_delete_desire d = do
    lift (validate_delete p d)
    check_target_owner d.identity d.owner
    refuse_existing d.identity
    delete_record (with_type type_apply d.identity)
    store_record d.identity (new_delete_record d)
    pure (project_delete_desire (new_delete_record d))

unfoldable pub get_delete_desire : Identity → Op DeleteDesire
get_delete_desire id = do
  lift (guard (id.type == type_delete) not_found)
  rec ← find_record id
  pure (project_delete_desire rec)

unfoldable pub delete_delete_desire : Identity → Text → ℕ → Op (Unit {0})
unfolding delete_desire_of
delete_delete_desire = delete_desire_of type_delete

unfoldable pub update_delete_desire_status : Identity → Status → ℕ → Op DeleteDesire
update_delete_desire_status id status version = do
  lift (guard (id.type == type_delete) not_found)
  rec ← find_record id
  lift (guard (eqb rec.version version) version_conflict)
  store_record id (with_status rec status)
  pure (project_delete_desire (with_status rec status))

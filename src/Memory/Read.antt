-- ===== src/Memory/Read.antt =====
-- The store's operations on ReadDesires.
use hyperfleet_applier.Base.{ℕ, none, ◌==◌}
use hyperfleet_applier.Base.Text.{Text, text_Eq}
use hyperfleet_applier.Base.Exec.{lift, pure, ◌>>=◌, ◌>>◌}
use hyperfleet_applier.Base.Result.{guard}
use hyperfleet_applier.Desire.Types.{
  type_read, initial_generation, Identity, identity_Eq, ReadStatus, ReadDesire,
}
use hyperfleet_applier.Desire.Platform.{Platform}
use hyperfleet_applier.Desire.Validate.{not_found, validate_read}
use hyperfleet_applier.Memory.Record.{
  ResourceRecord, Op, check_target_owner, store_record, refuse_existing, empty_status,
  empty_read_status, project_read_desire,
}
use hyperfleet_applier.Memory.Delete.{find_record, delete_desire_of}

unfoldable pub new_read_record : ReadDesire → ResourceRecord
new_read_record d = record {
  apply = none;
  identity = d.identity;
  origin_id = d.origin_id;
  owner = d.owner;
  target_version = d.target_version;
  read_status = empty_read_status;
  status = empty_status;
  generation = initial_generation;
  version = 1;
}

module _ {J : Type 0} (p : Platform J) where
  unfoldable pub create_read_desire : ReadDesire → Op ReadDesire
  create_read_desire d = do
    lift (validate_read p d)
    check_target_owner d.identity d.owner
    refuse_existing d.identity
    store_record d.identity (new_read_record d)
    pure (project_read_desire (new_read_record d))

unfoldable pub get_read_desire : Identity → Op ReadDesire
get_read_desire id = do
  lift (guard (id.type == type_read) not_found)
  rec ← find_record id
  pure (project_read_desire rec)

unfoldable pub delete_read_desire : Identity → Text → ℕ → Op (Unit {0})
unfolding delete_desire_of
delete_read_desire = delete_desire_of type_read

-- rec.ReadStatus = status; the version stays
unfoldable pub with_read_status : ResourceRecord → ReadStatus → ResourceRecord
with_read_status rec status = record rec { read_status = status }

unfoldable pub update_read_desire_status : Identity → ReadStatus → Op ReadDesire
update_read_desire_status id status = do
  lift (guard (id.type == type_read) not_found)
  rec ← find_record id
  store_record id (with_read_status rec status)
  pure (project_read_desire (with_read_status rec status))

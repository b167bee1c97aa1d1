-- ===== src/Tests/MemoryStore.antt =====
-- Runs of the in-memory store and of selectors.
use hyperfleet_applier.Memory.Supersede.{create_delete-get, fresh_delete}
use hyperfleet_applier.Desire.Types.{
  type_apply, DeleteDesire, identity_Eq, identity_eq, Status, ApplyDesire, type_delete,
}
use hyperfleet_applier.Base.Result.{is_ok, Result, ok, err}
use hyperfleet_applier.Desire.Validate.{
  Error, version_conflict, delete_pending, not_found, validate_apply, validate_delete,
  validate_spec, validate_identity, validate_label,
}
use hyperfleet_applier.Memory.Query.{selects, list_desires, list_apply_desires, delete_by_prefix}
use hyperfleet_applier.Base.{ap, ◌≡◌, ◌↔◌, refl, true, false, some, List, [], ◌∷◌, if◌then◌else◌}
use mathlib.Core.List.{Memᴰ}
use hyperfleet_applier.Base.Text.{codes, text_eq}
use hyperfleet_applier.Base.Dict.{lookup, insert, remove}
use hyperfleet_applier.Base.Exec.{◌>>=◌}
use hyperfleet_applier.Desire.Contract.{
  PrefixSelector, matches, is_deleted, spec_equal, check_owner,
}
use hyperfleet_applier.Desire.Selector.{Selected, matches_iff}
use hyperfleet_applier.Memory.Record.{
  Memory, with_type, empty_status, increment, project_apply_desire, project_delete_desire,
  store_record, delete_record, check_owner_in, check_target_owner, target_owner, first_owner,
  refuse_existing,
}
use hyperfleet_applier.Memory.Apply.{
  get_apply_desire, find_apply, create_apply_desire, update_apply_desire_status,
  update_apply_desire_spec, delete_apply_desire, with_status, respecified, new_apply_record,
  retire_delete,
}
use hyperfleet_applier.Memory.Delete.{
  new_delete_record, find_record, create_delete_desire, get_delete_desire,
  update_delete_desire_status,
}
use hyperfleet_applier.Memory.Invariant.{IsValid, empty-IsValid}
use hyperfleet_applier.Memory.Reach.{
  Request, create_apply, create_delete, update_delete_status, serve, run, run-IsValid,
}
use hyperfleet_applier.Memory.Atomic.{serve_error-items}
use hyperfleet_applier.Memory.Writes.{update_spec_lem, update_spec-stale, update_status_lem}
use hyperfleet_applier.Memory.Lifecycle.{
  create_apply-get, create_apply-pending, create_apply-confirmed, fresh_apply,
}
use hyperfleet_applier.Memory.Listing.{list_apply_desires_iff, delete_by_prefix_iff}
use hyperfleet_applier.Tests.Data.{
  platform, apply_id, delete_id, spec_1, spec_2, deleted_status, desire_1, delete_1, empty_store,
  store_1, pending_store, confirmed_store, record_1, find,
}

got : get_apply_desire apply_id store_1 ≡ (ok desire_1, store_1)
unfolding get_apply_desire find_apply lookup identity_eq text_eq project_apply_desire ◌>>=◌
got = refl

abbrev desire_2 : ApplyDesire
desire_2 = record desire_1 { status = deleted_status; version = 2 }

abbrev store_2 : Memory
store_2 = record {
  items = (apply_id, record record_1 { status = deleted_status; version = 2 }) ∷ [];
  conflict_total = 0;
}

restatused : update_apply_desire_status apply_id deleted_status 1 store_1 ≡ (ok desire_2, store_2)
unfolding update_apply_desire_status find_apply lookup identity_eq text_eq project_apply_desire
    ◌>>=◌ store_record insert remove with_status
restatused = refl

update_status_lem_example :
    (get_apply_desire apply_id store_2 ≡ (ok desire_2, store_2))
    × (desire_1.version ≡ 1)
    × (desire_2 ≡ record desire_1 { status = deleted_status; version = increment 1 })
    × ((again : Status)
        → update_apply_desire_status apply_id again 1 store_2 ≡ (err version_conflict, store_2))
update_status_lem_example =
    update_status_lem apply_id deleted_status 1 store_1 store_2 desire_2 desire_1 got restatused

abbrev desire_3 : ApplyDesire
desire_3 = record desire_1 { spec = spec_2; generation = 2; version = 2 }

abbrev store_3 : Memory
store_3 = record {
  items = (apply_id, record record_1 { apply = some spec_2; generation = 2; version = 2 }) ∷ [];
  conflict_total = 0;
}

respecified_run :
    update_apply_desire_spec platform apply_id spec_2 (codes "me") 1 store_1
    ≡ (ok desire_3, store_3)
unfolding update_apply_desire_spec find_apply lookup identity_eq text_eq project_apply_desire ◌>>=◌
    store_record insert remove respecified validate_spec spec_equal check_owner_in check_owner
respecified_run = refl

update_spec_lem_example :
    (get_apply_desire apply_id store_3 ≡ (ok desire_3, store_3))
    × (desire_1.version ≡ 1)
    × (desire_1.owner ≡ codes "me")
    × (desire_3 ≡ record desire_1 {
      spec = spec_2;
      generation =
          if spec_equal platform desire_1.spec spec_2
          then desire_1.generation
          else increment desire_1.generation;
      version = increment 1;
    })
update_spec_lem_example =
    update_spec_lem platform apply_id spec_2 (codes "me") 1 store_1 store_3 desire_3 desire_1 got
      respecified_run

valid_1 : validate_spec platform spec_1 ≡ ok tt
unfolding validate_spec text_eq
valid_1 = refl

update_spec-stale_example :
    (update_apply_desire_status apply_id empty_status 1 store_3 ≡ (err version_conflict, store_3))
    × (update_apply_desire_spec platform apply_id spec_1 (codes "me") 1 store_3
        ≡ (err version_conflict, store_3))
    × (delete_apply_desire apply_id (codes "me") 1 store_3 ≡ (err version_conflict, store_3))
update_spec-stale_example =
    update_spec-stale platform apply_id spec_2 (codes "me") 1 store_1 store_3 desire_3
      respecified_run empty_status spec_1 (codes "me") valid_1

created : create_apply_desire platform desire_1 empty_store ≡ (ok desire_1, store_1)
unfolding create_apply_desire lookup identity_eq text_eq project_apply_desire ◌>>=◌ store_record
    insert remove validate_apply validate_identity validate_label validate_spec check_target_owner
    retire_delete refuse_existing new_apply_record target_owner first_owner
created = refl

create_apply-get_example :
    (desire_1 ≡ fresh_apply desire_1)
    × (get_apply_desire apply_id store_1 ≡ (ok desire_1, store_1))
    × (get_delete_desire (with_type type_delete apply_id) store_1 ≡ (err not_found, store_1))
create_apply-get_example = create_apply-get platform desire_1 empty_store store_1 desire_1 created

abbrev pending_requests : List Request
pending_requests = create_delete delete_1 ∷ []

abbrev confirmed_requests : List Request
confirmed_requests = create_delete delete_1 ∷ update_delete_status delete_id deleted_status 1 ∷ []

run-IsValid_example :
    IsValid (run platform (create_apply desire_1 ∷ confirmed_requests) empty_store).items
run-IsValid_example =
    run-IsValid platform (create_apply desire_1 ∷ confirmed_requests) empty_store empty-IsValid

pending_store-IsValid : IsValid pending_store.items
unfolding run serve create_delete_desire lookup identity_eq text_eq ◌>>=◌ store_record delete_record
    insert remove validate_delete validate_identity validate_label check_target_owner
    refuse_existing project_delete_desire target_owner first_owner new_delete_record
pending_store-IsValid = run-IsValid platform pending_requests empty_store empty-IsValid

confirmed_store-IsValid : IsValid confirmed_store.items
unfolding run serve create_delete_desire lookup identity_eq text_eq ◌>>=◌ store_record delete_record
    insert remove validate_delete validate_identity validate_label check_target_owner
    refuse_existing project_delete_desire target_owner first_owner new_delete_record
    update_delete_desire_status find_record with_status
confirmed_store-IsValid = run-IsValid platform confirmed_requests empty_store empty-IsValid

pending : get_delete_desire delete_id pending_store ≡ (ok delete_1, pending_store)
unfolding get_delete_desire find_record lookup identity_eq text_eq project_delete_desire ◌>>=◌
pending = refl

abbrev delete_2 : DeleteDesire
delete_2 = record delete_1 { status = deleted_status; version = 2 }

confirmed : get_delete_desire delete_id confirmed_store ≡ (ok delete_2, confirmed_store)
unfolding get_delete_desire find_record lookup identity_eq text_eq project_delete_desire ◌>>=◌
confirmed = refl

valid_desire : validate_apply platform desire_1 ≡ ok tt
unfolding validate_apply validate_identity validate_label validate_spec text_eq
valid_desire = refl

not_deleted : is_deleted platform empty_status ≡ false
unfolding is_deleted find
not_deleted = refl

now_deleted : is_deleted platform deleted_status ≡ true
unfolding is_deleted find text_eq
now_deleted = refl

refused : create_apply_desire platform desire_1 pending_store ≡ (err delete_pending, pending_store)
refused =
    create_apply-pending platform desire_1 pending_store delete_1 pending_store-IsValid pending
      valid_desire refl not_deleted

create_apply-pending_example :
    create_apply_desire platform desire_1 pending_store ≡ (err delete_pending, pending_store)
create_apply-pending_example =
    create_apply-pending platform desire_1 pending_store delete_1 pending_store-IsValid pending
      valid_desire refl not_deleted

create_apply-confirmed_example :
    (t : Memory) × (create_apply_desire platform desire_1 confirmed_store
      ≡ (ok (fresh_apply desire_1), t))
    × (get_delete_desire (with_type type_delete apply_id) t ≡ (err not_found, t))
create_apply-confirmed_example =
    create_apply-confirmed platform desire_1 confirmed_store delete_2 confirmed_store-IsValid
      confirmed valid_desire refl now_deleted

fails : (serve platform (create_apply desire_1) pending_store).0 ≡ false
unfolding serve
fails = ap (λ (r : Result Error ApplyDesire × Memory). is_ok r.0) refused

serve_error-items_example :
    (serve platform (create_apply desire_1) pending_store).1.items ≡ pending_store.items
serve_error-items_example =
    serve_error-items platform (create_apply desire_1) pending_store pending_store-IsValid fails

store_1-IsValid : IsValid store_1.items
unfolding run serve create_apply_desire lookup identity_eq text_eq project_apply_desire ◌>>=◌
    store_record insert remove validate_apply validate_identity validate_label validate_spec
    check_target_owner retire_delete refuse_existing new_apply_record target_owner first_owner
store_1-IsValid = run-IsValid platform (create_apply desire_1 ∷ []) empty_store empty-IsValid

listed : list_apply_desires (codes "mc") store_1 ≡ (ok (desire_1 ∷ []), store_1)
unfolding list_apply_desires list_desires selects text_eq project_apply_desire
listed = refl

list_apply_desires_iff_example : Memᴰ desire_1 (desire_1 ∷ []) ↔ (
    (get_apply_desire apply_id store_1 ≡ (ok desire_1, store_1))
    × (apply_id.management_cluster ≡ codes "mc"))
list_apply_desires_iff_example =
    list_apply_desires_iff (codes "mc") store_1 (desire_1 ∷ []) desire_1 store_1-IsValid listed

abbrev pods : PrefixSelector
pods = record { type = []; group = []; resource = codes "po"; namespace = []; name = [] }

matches_iff_example : (matches pods apply_id ≡ true) ↔ Selected pods apply_id
matches_iff_example = matches_iff pods apply_id

delete_by_prefix_iff_example :
    (lookup apply_id (delete_by_prefix (codes "mc") pods store_1).1.items ≡ some record_1) ↔ (
      (lookup apply_id store_1.items ≡ some record_1)
      × ¬ ((apply_id.management_cluster ≡ codes "mc") × Selected pods apply_id))
delete_by_prefix_iff_example = delete_by_prefix_iff (codes "mc") pods store_1 apply_id record_1

superseded_run : create_delete_desire platform delete_1 store_1 ≡ (ok delete_1, pending_store)
unfolding create_delete_desire lookup identity_eq text_eq ◌>>=◌ store_record delete_record insert
    remove validate_delete validate_identity validate_label check_target_owner refuse_existing
    project_delete_desire target_owner first_owner new_delete_record check_owner_in check_owner
superseded_run = refl

create_delete-get_example :
    (delete_1 ≡ fresh_delete delete_1)
    × (get_delete_desire delete_id pending_store ≡ (ok delete_1, pending_store))
    × (get_apply_desire (with_type type_apply delete_id) pending_store
        ≡ (err not_found, pending_store))
create_delete-get_example =
    create_delete-get platform delete_1 store_1 pending_store delete_1 superseded_run

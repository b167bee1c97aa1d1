-- ===== src/Memory/Keeps.antt =====
-- The updates, deletes and queries of the in-memory store keep the invariant of its map.
use hyperfleet_applier.Base.{ℕ, refl, sym, ◌∙◌}
use hyperfleet_applier.Base.Text.{Text}
use hyperfleet_applier.Base.Exec.{bind_inv, bind_same}
use hyperfleet_applier.Desire.Types.{DesireType, Identity, ApplySpec, Status, ReadStatus}
use hyperfleet_applier.Desire.Platform.{Platform}
use hyperfleet_applier.Desire.Contract.{PrefixSelector}
use hyperfleet_applier.Memory.Record.{Memory, check_owner_in, delete_record}
use hyperfleet_applier.Memory.Apply.{
  find_apply, get_apply_desire, update_apply_desire_status, update_apply_desire_spec,
  delete_apply_desire, with_status, respecified,
}
use hyperfleet_applier.Memory.Delete.{
  find_record, get_delete_desire, update_delete_desire_status, delete_desire_of,
}
use hyperfleet_applier.Memory.Read.{get_read_desire, update_read_desire_status, with_read_status}
use hyperfleet_applier.Memory.Query.{delete_by_prefix, doomed}
use hyperfleet_applier.Memory.Invariant.{update-IsValid, remove-IsValid, remove_if-IsValid}
use hyperfleet_applier.Memory.Facts.{
  none≢some, Valid, find_apply_ok, find_apply-keeps, find_record_ok, find_record-keeps,
  respec-IsWellFormed, write_IsValid,
}

pub update_apply_desire_status-IsValid :
    (id : Identity) (status : Status) (version : ℕ) (s : Memory)
    → Valid s
    → Valid (update_apply_desire_status id status version s).1
unfolding update_apply_desire_status with_status
update_apply_desire_status-IsValid id status version s v = bind_same Valid _ _ s refl v λ _ _.
    bind_same Valid (find_apply id) _ s (find_apply-keeps id s) v λ a found.
      bind_same Valid _ _ s refl v λ _ _.
        let (at, spec) = find_apply_ok id s a.0 a.1 found in
        write_IsValid id _ _ s (
          update-IsValid id a.0 _ at refl
            (respec-IsWellFormed id a.0 _ refl (λ h. h) (λ h. h) (v.well_formed id a.0 at)) v)

module _ {J : Type 0} (p : Platform J) where
  pub update_apply_desire_spec-IsValid :
      (id : Identity) (spec : ApplySpec) (owner : Text) (version : ℕ) (s : Memory)
      → Valid s
      → Valid (update_apply_desire_spec p id spec owner version s).1
  unfolding update_apply_desire_spec respecified check_owner_in
  update_apply_desire_spec-IsValid id spec owner version s v = bind_same Valid _ _ s refl v λ _ _.
      bind_same Valid _ _ s refl v λ _ _.
        bind_same Valid (find_apply id) _ s (find_apply-keeps id s) v λ a found.
          bind_same Valid _ _ s refl v λ _ _.
            let (at, old) = find_apply_ok id s a.0 a.1 found in
            bind_inv Valid _ _ s v λ _ _. write_IsValid id _ _ _ (
              update-IsValid id a.0 _ at refl
                (respec-IsWellFormed id a.0 _ refl (λ h. (spec, refl))
                  (λ h. absurd (none≢some (sym h ∙ old))) (v.well_formed id a.0 at))
                v)

pub delete_apply_desire-IsValid :
    (id : Identity) (owner : Text) (version : ℕ) (s : Memory)
    → Valid s
    → Valid (delete_apply_desire id owner version s).1
unfolding delete_apply_desire check_owner_in delete_record
delete_apply_desire-IsValid id owner version s v = bind_same Valid _ _ s refl v λ _ _.
    bind_same Valid (find_apply id) _ s (find_apply-keeps id s) v λ a found.
      bind_same Valid _ _ s refl v λ _ _. bind_inv Valid _ _ s v λ _ _. remove-IsValid id v

pub get_apply_desire-IsValid :
    (id : Identity) (s : Memory) → Valid s → Valid (get_apply_desire id s).1
unfolding get_apply_desire
get_apply_desire-IsValid id s v =
    bind_same Valid _ _ s refl v
      λ _ _. bind_same Valid (find_apply id) _ s (find_apply-keeps id s) v λ _ _. v

pub delete_desire_of-IsValid :
    (t : DesireType) (id : Identity) (owner : Text) (version : ℕ) (s : Memory)
    → Valid s
    → Valid (delete_desire_of t id owner version s).1
unfolding delete_desire_of check_owner_in delete_record
delete_desire_of-IsValid t id owner version s v = bind_same Valid _ _ s refl v λ _ _.
    bind_same Valid (find_record id) _ s (find_record-keeps id s) v λ a found.
      bind_same Valid _ _ s refl v λ _ _. bind_inv Valid _ _ s v λ _ _. remove-IsValid id v

pub get_delete_desire-IsValid :
    (id : Identity) (s : Memory) → Valid s → Valid (get_delete_desire id s).1
unfolding get_delete_desire
get_delete_desire-IsValid id s v =
    bind_same Valid _ _ s refl v
      λ _ _. bind_same Valid (find_record id) _ s (find_record-keeps id s) v λ _ _. v

pub update_delete_desire_status-IsValid :
    (id : Identity) (status : Status) (version : ℕ) (s : Memory)
    → Valid s
    → Valid (update_delete_desire_status id status version s).1
unfolding update_delete_desire_status with_status
update_delete_desire_status-IsValid id status version s v = bind_same Valid _ _ s refl v λ _ _.
    bind_same Valid (find_record id) _ s (find_record-keeps id s) v λ a found.
      bind_same Valid _ _ s refl v λ _ _.
        let at = find_record_ok id s a found in
        write_IsValid id _ _ s (
          update-IsValid id a _ at refl
            (respec-IsWellFormed id a _ refl (λ h. h) (λ h. h) (v.well_formed id a at)) v)

pub get_read_desire-IsValid :
    (id : Identity) (s : Memory) → Valid s → Valid (get_read_desire id s).1
unfolding get_read_desire
get_read_desire-IsValid id s v =
    bind_same Valid _ _ s refl v
      λ _ _. bind_same Valid (find_record id) _ s (find_record-keeps id s) v λ _ _. v

pub update_read_desire_status-IsValid :
    (id : Identity) (status : ReadStatus) (s : Memory)
    → Valid s
    → Valid (update_read_desire_status id status s).1
unfolding update_read_desire_status with_read_status
update_read_desire_status-IsValid id status s v = bind_same Valid _ _ s refl v λ _ _.
    bind_same Valid (find_record id) _ s (find_record-keeps id s) v λ a found.
      let at = find_record_ok id s a found in
      write_IsValid id _ _ s (
        update-IsValid id a _ at refl
          (respec-IsWellFormed id a _ refl (λ h. h) (λ h. h) (v.well_formed id a at)) v)

pub delete_by_prefix-IsValid :
    (mc : Text) (sel : PrefixSelector) (s : Memory) → Valid s → Valid (delete_by_prefix mc sel s).1
unfolding delete_by_prefix
delete_by_prefix-IsValid mc sel s v = remove_if-IsValid (doomed mc sel) v

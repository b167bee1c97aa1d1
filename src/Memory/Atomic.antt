-- ===== src/Memory/Atomic.antt =====
-- An operation of the in-memory store that returns an error leaves the map as it was.
use hyperfleet_applier.Base.{
  ℕ, ◌≡◌, refl, sym, ◌∙◌, false, some, Option-cases, inl, inr, arith, ap, subst,
}
use hyperfleet_applier.Base.Text.{Text}
use hyperfleet_applier.Base.Dict.{lookup}
use hyperfleet_applier.Base.Exec.{OnError, bind_error, pure, ◌>>◌, ◌>>=◌}
use hyperfleet_applier.Base.Result.{Result, ok, err, is_ok}
use hyperfleet_applier.Desire.Types.{
  DesireType, type_apply, type_delete, Identity, identity_Eq, Status, ReadStatus, ApplySpec,
  ApplyDesire, DeleteDesire, ReadDesire,
}
use hyperfleet_applier.Desire.Platform.{Platform}
use hyperfleet_applier.Desire.Validate.{Error}
use hyperfleet_applier.Memory.Record.{
  ResourceRecord, Items, Memory, Op, with_type, refuse_existing, store_record, delete_record,
}
use hyperfleet_applier.Memory.Apply.{
  find_apply, retire_delete, create_apply_desire, get_apply_desire, update_apply_desire_spec,
  update_apply_desire_status, delete_apply_desire,
}
use hyperfleet_applier.Memory.Delete.{
  find_record, delete_desire_of, create_delete_desire, get_delete_desire,
  update_delete_desire_status, delete_delete_desire,
}
use hyperfleet_applier.Memory.Read.{
  create_read_desire, get_read_desire, update_read_desire_status, delete_read_desire,
}
use hyperfleet_applier.Memory.Query.{
  list_apply_desires, list_delete_desires, list_read_desires, delete_by_prefix,
}
use hyperfleet_applier.Memory.Invariant.{IsValid}
use hyperfleet_applier.Memory.Reach.{
  Request, create_apply, get_apply, update_apply_spec, update_apply_status, delete_apply,
  create_delete, get_delete, update_delete_status, delete_delete, create_read, get_read,
  update_read_status, delete_read, list_apply, list_delete, list_read, delete_prefix, serve,
}
use hyperfleet_applier.Memory.Facts.{
  retire_delete-none, refuse_existing_error, retire_delete-sub, validate_apply-type,
  find_apply-keeps, find_record-keeps, refuse_existing-keeps, check_owner_in-keeps,
  check_target_owner-keeps,
}

module _ (items : Items) where
  abbrev Same : Memory → Type 0
  Same t = t.items ≡ items

  -- a step that never changes the map
  step-Same :
      {A B : Type 0} (m : Op A) (f : A → Op B) (s : Memory)
      → Same s
      → (m s).1.items ≡ s.items
      → ((a : A) → Same (m s).1 → OnError Same (f a (m s).1))
      → OnError Same ((m >>= f) s)
  step-Same m f s h keeps k = bind_error Same m f s (λ _ _. keeps ∙ h) (λ a _. k a (keeps ∙ h))

  write-Same :
      {A : Type 0} (id : Identity) (rec : ResourceRecord) (a : A) (s : Memory)
      → OnError Same ((store_record id rec >> pure a) s)
  unfolding store_record ◌>>=◌
  write-Same id rec a s = λ x h. cc

  delete-Same : (id : Identity) (s : Memory) → OnError Same (delete_record id s)
  unfolding delete_record
  delete-Same id s = λ x h. cc

  update_apply_desire_status-Same :
      (id : Identity) (status : Status) (version : ℕ) (s : Memory)
      → Same s
      → OnError Same (update_apply_desire_status id status version s)
  unfolding update_apply_desire_status
  update_apply_desire_status-Same id status version s h = step-Same _ _ s h refl λ _ _.
      step-Same (find_apply id) _ s h (ap (λ (t : Memory). t.items) (find_apply-keeps id s))
        λ a h'. step-Same _ _ _ h' refl λ _ _. write-Same id _ _ _

  delete_apply_desire-Same :
      (id : Identity) (owner : Text) (version : ℕ) (s : Memory)
      → Same s
      → OnError Same (delete_apply_desire id owner version s)
  unfolding delete_apply_desire
  delete_apply_desire-Same id owner version s h = step-Same _ _ s h refl λ _ _.
      step-Same (find_apply id) _ s h (ap (λ (t : Memory). t.items) (find_apply-keeps id s)) λ a h'.
        step-Same _ _ _ h' refl
          λ _ _. step-Same _ _ _ h' (check_owner_in-keeps _ _ _) λ _ _. delete-Same id _

  get_apply_desire-Same :
      (id : Identity) (s : Memory) → Same s → OnError Same (get_apply_desire id s)
  unfolding get_apply_desire
  get_apply_desire-Same id s h = step-Same _ _ s h refl λ _ _.
      step-Same (find_apply id) _ s h (ap (λ (t : Memory). t.items) (find_apply-keeps id s))
        λ a h' x e. h'

  delete_desire_of-Same :
      (t : DesireType) (id : Identity) (owner : Text) (version : ℕ) (s : Memory)
      → Same s
      → OnError Same (delete_desire_of t id owner version s)
  unfolding delete_desire_of
  delete_desire_of-Same t id owner version s h = step-Same _ _ s h refl λ _ _.
      step-Same (find_record id) _ s h (ap (λ (u : Memory). u.items) (find_record-keeps id s))
        λ a h'.
          step-Same _ _ _ h' refl
            λ _ _. step-Same _ _ _ h' (check_owner_in-keeps _ _ _) λ _ _. delete-Same id _

  get_delete_desire-Same :
      (id : Identity) (s : Memory) → Same s → OnError Same (get_delete_desire id s)
  unfolding get_delete_desire
  get_delete_desire-Same id s h = step-Same _ _ s h refl λ _ _.
      step-Same (find_record id) _ s h (ap (λ (u : Memory). u.items) (find_record-keeps id s))
        λ a h' x e. h'

  update_delete_desire_status-Same :
      (id : Identity) (status : Status) (version : ℕ) (s : Memory)
      → Same s
      → OnError Same (update_delete_desire_status id status version s)
  unfolding update_delete_desire_status
  update_delete_desire_status-Same id status version s h = step-Same _ _ s h refl λ _ _.
      step-Same (find_record id) _ s h (ap (λ (u : Memory). u.items) (find_record-keeps id s))
        λ a h'. step-Same _ _ _ h' refl λ _ _. write-Same id _ _ _

  get_read_desire-Same : (id : Identity) (s : Memory) → Same s → OnError Same (get_read_desire id s)
  unfolding get_read_desire
  get_read_desire-Same id s h = step-Same _ _ s h refl λ _ _.
      step-Same (find_record id) _ s h (ap (λ (u : Memory). u.items) (find_record-keeps id s))
        λ a h' x e. h'

  update_read_desire_status-Same :
      (id : Identity) (status : ReadStatus) (s : Memory)
      → Same s
      → OnError Same (update_read_desire_status id status s)
  unfolding update_read_desire_status
  update_read_desire_status-Same id status s h = step-Same _ _ s h refl λ _ _.
      step-Same (find_record id) _ s h (ap (λ (u : Memory). u.items) (find_record-keeps id s))
        λ a h'. write-Same id _ _ _

  module _ {J : Type 0} (p : Platform J) where
    update_apply_desire_spec-Same :
        (id : Identity) (spec : ApplySpec) (owner : Text) (version : ℕ) (s : Memory)
        → Same s
        → OnError Same (update_apply_desire_spec p id spec owner version s)
    unfolding update_apply_desire_spec
    update_apply_desire_spec-Same id spec owner version s h = step-Same _ _ s h refl λ _ _.
        step-Same _ _ s h refl λ _ _.
          step-Same (find_apply id) _ s h (ap (λ (t : Memory). t.items) (find_apply-keeps id s))
            λ a h'.
              step-Same _ _ _ h' refl
                λ _ _. step-Same _ _ _ h' (check_owner_in-keeps _ _ _) λ _ _. write-Same id _ _ _

    create_delete_desire-Same :
        (d : DeleteDesire) (s : Memory) → Same s → OnError Same (create_delete_desire p d s)
    unfolding create_delete_desire
    create_delete_desire-Same d s h = step-Same _ _ s h refl λ _ _.
        step-Same _ _ s h (check_target_owner-keeps d.identity d.owner s) λ _ h'.
          step-Same _ _ _ h' (ap (λ (t : Memory). t.items) (refuse_existing-keeps d.identity _))
            λ _ h''. bind_error Same _ _ _ (delete-Same _ _) λ _ _. write-Same d.identity _ _ _

    create_read_desire-Same :
        (d : ReadDesire) (s : Memory) → Same s → OnError Same (create_read_desire p d s)
    unfolding create_read_desire
    create_read_desire-Same d s h = step-Same _ _ s h refl λ _ _.
        step-Same _ _ s h (check_target_owner-keeps d.identity d.owner s) λ _ h'.
          step-Same _ _ _ h' (ap (λ (t : Memory). t.items) (refuse_existing-keeps d.identity _))
            λ _ h''. write-Same d.identity _ _ _

    retire_delete-Same : (id : Identity) (s : Memory) → Same s → OnError Same (retire_delete p id s)
    unfolding retire_delete
    retire_delete-Same id s h = λ x e. ground arith

    -- A create that finds an apply has retired no delete, since no resource has both.
    refused-Same :
        (id : Identity) (s : Memory)
        → IsValid s.items
        → id.type ≡ type_apply
        → Same s
        → OnError Same (refuse_existing id (retire_delete p (with_type type_delete id) s).1)
    refused-Same id s v ty h = λ x e.
        elim (Option-cases (lookup (with_type type_delete id) s.items)) [
          | inl n ↦
              ap (λ (t : Memory). t.items) (refuse_existing-keeps id _)
              ∙ retire_delete-none p _ s n
              ∙ h
          | inr (r, there) ↦
              let (q, at) = refuse_existing_error id _ x e in
              absurd (
                v.exclusive id q r
                  (subst (λ j. lookup j s.items ≡ some q) (ap (λ t. with_type t id) ty)
                    (retire_delete-sub p _ id q s at))
                  there)
        ]

    create_apply_desire-Same :
        (d : ApplyDesire) (s : Memory)
        → IsValid s.items
        → Same s
        → OnError Same (create_apply_desire p d s)
    unfolding create_apply_desire
    create_apply_desire-Same d s v h =
        bind_error Same _ _ s (λ _ _. h)
          λ _ checked. step-Same _ _ s h (check_target_owner-keeps d.identity d.owner s) λ _ h'.
            bind_error Same _ _ _ (retire_delete-Same _ _ h') λ _ _.
              bind_error Same _ _ _
                (refused-Same d.identity _
                  (subst IsValid (sym (check_target_owner-keeps d.identity d.owner s)) v)
                  (validate_apply-type p d checked) h')
                λ _ _. write-Same d.identity _ _ _

failed :
    {A : Type 0} {was now : Items} (r : Result Error A)
    → ((x : Error) → r ≡ err x → now ≡ was)
    → is_ok r ≡ false
    → now ≡ was
failed (ok a) h e = cc
failed (err x) h e = h x refl

module _ {J : Type 0} (p : Platform J) where
  -- On a valid store, an operation that fails leaves the stored records as they were.
  pub serve_error-items :
      (r : Request) (s : Memory)
      → IsValid s.items
      → (serve p r s).0 ≡ false
      → (serve p r s).1.items ≡ s.items
  unfolding serve delete_delete_desire delete_read_desire list_apply_desires list_delete_desires
      list_read_desires delete_by_prefix
  serve_error-items (create_apply d) s v = failed _ (create_apply_desire-Same s.items p d s v refl)
  serve_error-items (get_apply id) s v = failed _ (get_apply_desire-Same s.items id s refl)
  serve_error-items (update_apply_spec id spec owner n) s v =
      failed _ (update_apply_desire_spec-Same s.items p id spec owner n s refl)
  serve_error-items (update_apply_status id status n) s v =
      failed _ (update_apply_desire_status-Same s.items id status n s refl)
  serve_error-items (delete_apply id owner n) s v =
      failed _ (delete_apply_desire-Same s.items id owner n s refl)
  serve_error-items (create_delete d) s v = failed _ (create_delete_desire-Same s.items p d s refl)
  serve_error-items (get_delete id) s v = failed _ (get_delete_desire-Same s.items id s refl)
  serve_error-items (update_delete_status id status n) s v =
      failed _ (update_delete_desire_status-Same s.items id status n s refl)
  serve_error-items (delete_delete id owner n) s v =
      failed _ (delete_desire_of-Same s.items _ id owner n s refl)
  serve_error-items (create_read d) s v = failed _ (create_read_desire-Same s.items p d s refl)
  serve_error-items (get_read id) s v = failed _ (get_read_desire-Same s.items id s refl)
  serve_error-items (update_read_status id status) s v =
      failed _ (update_read_desire_status-Same s.items id status s refl)
  serve_error-items (delete_read id owner n) s v =
      failed _ (delete_desire_of-Same s.items _ id owner n s refl)
  serve_error-items (list_apply mc) s v = λ _. refl
  serve_error-items (list_delete mc) s v = λ _. refl
  serve_error-items (list_read mc) s v = λ _. refl
  serve_error-items (delete_prefix mc sel) s v = λ h. cc

-- ===== src/Memory/Lifecycle.antt =====
-- The life of a target in the in-memory store: apply, delete that supersedes it, and an apply again once
-- the deletion is confirmed.
use hyperfleet_applier.Desire.Validate.{Error, not_found, delete_pending, validate_apply}
use hyperfleet_applier.Base.Dict.{
  lookup-remove_ne, lookup, insert, remove, lookup-insert_self, lookup-insert_ne,
}
use hyperfleet_applier.Base.Result.{Result, ok, err}
use hyperfleet_applier.Base.{
  inr, inl, Option-cases, ◌≢◌, ◌≡◌, refl, sym, ◌∙◌, ap, subst, true, false, none, some,
}
use hyperfleet_applier.Memory.Facts.{
  find_record_ok, find_record-keeps, refuse_existing-absent, find_apply-absent, find_record-absent,
  retire_delete-done, retire_delete-pending, target_owner_lem, check_target_owner-passes,
  retire_delete_ok, validate_apply-type, refuse_existing-keeps,
}
use hyperfleet_applier.Memory.Record.{
  project_delete_desire, store_record, empty_status, ResourceRecord, Memory, with_type,
  project_apply_desire, check_target_owner, refuse_existing,
}
use hyperfleet_applier.Base.Exec.{◌>>◌, ◌>>=◌, pure, bind-err, bind-eq, bind_ok, bind_ok_same}
use hyperfleet_applier.Memory.Apply.{
  find_apply, retire_delete, create_apply_desire, get_apply_desire, new_apply_record,
}
use hyperfleet_applier.Memory.Delete.{find_record, get_delete_desire}
use hyperfleet_applier.Desire.Contract.{is_deleted}
use hyperfleet_applier.Base.Text.{text_eq_iff}
use hyperfleet_applier.Memory.Invariant.{IsValid, apply≢delete}
use hyperfleet_applier.Desire.Types.{
  initial_generation, DesireType, type_apply, type_delete, Identity, identity_Eq, ApplyDesire,
  DeleteDesire,
}
use hyperfleet_applier.Desire.Platform.{Platform}
use hyperfleet_applier.Memory.Access.{HasApply, get_apply_desire-HasApply, write_ok}

module _ {J : Type 0} (p : Platform J) where
  -- what a successful create of an apply found and left
  record AppliedNew (d : ApplyDesire) (s t : Memory) (a : ApplyDesire) : Type 0 where
    typed : d.identity.type ≡ type_apply
    owned : (check_target_owner d.identity d.owner s).0 ≡ ok tt
    retired :
        (retire_delete p
          (with_type type_delete d.identity)
          (check_target_owner d.identity d.owner s).1).0
        ≡ ok tt
    left :
        t.items
        ≡ insert d.identity
            (new_apply_record d)
            (retire_delete p
              (with_type type_delete d.identity)
              (check_target_owner d.identity d.owner s).1).1.items
    returned : a ≡ project_apply_desire (new_apply_record d)

  create_apply_desire_ok :
      (d : ApplyDesire) (s t : Memory) (a : ApplyDesire)
      → create_apply_desire p d s ≡ (ok a, t)
      → AppliedNew d s t a
  unfolding create_apply_desire
  create_apply_desire_ok d s t a h =
      let (_, checked, h₁) = bind_ok_same _ _ s refl h in
      let (_, owned, h₂) = bind_ok (check_target_owner d.identity d.owner) _ s h₁ in
      let (_, retired, h₃) = bind_ok (retire_delete p (with_type type_delete d.identity)) _ _ h₂ in
      let (_, _, h₄) =
        bind_ok_same (refuse_existing d.identity) _ _ (refuse_existing-keeps d.identity _) h₃ in
      let (returned, left) = write_ok d.identity _ _ a _ t h₄ in
      record {
        typed = validate_apply-type p d checked;
        owned = owned;
        retired = retired;
        left = ap (λ (u : Memory). u.items) left;
        returned = returned;
      }

-- the desire that a successful create returns
abbrev pub fresh_apply : ApplyDesire → ApplyDesire
fresh_apply d = record d { status = empty_status; generation = initial_generation; version = 1 }

project-fresh : (d : ApplyDesire) → project_apply_desire (new_apply_record d) ≡ fresh_apply d
unfolding project_apply_desire new_apply_record
project-fresh d = refl

pub with_type-ne : (id : Identity) (t u : DesireType) → t ≢ u → with_type t id ≢ with_type u id
with_type-ne id t u n e = n (ap (λ (i : Identity). i.type) e)

pub typed-ne : (id : Identity) (t u : DesireType) → id.type ≡ t → t ≢ u → id ≢ with_type u id
typed-ne id t u ty n e = n (sym ty ∙ ap (λ (i : Identity). i.type) e)

module _ (id : Identity) (s : Memory) where
  pub get_delete_desire-absent :
      id.type ≡ type_delete → lookup id s.items ≡ none → get_delete_desire id s ≡ (err not_found, s)
  unfolding get_delete_desire
  get_delete_desire-absent ty n =
      bind-eq _ _ s s tt (rw ((text_eq_iff id.type type_delete).1 ty))
      ∙ bind-err (find_record id) _ s s not_found (find_record-absent id s n)

  pub get_apply_desire-absent :
      id.type ≡ type_apply → lookup id s.items ≡ none → get_apply_desire id s ≡ (err not_found, s)
  unfolding get_apply_desire
  get_apply_desire-absent ty n =
      bind-eq _ _ s s tt (rw ((text_eq_iff id.type type_apply).1 ty))
      ∙ bind-err (find_apply id) _ s s not_found (find_apply-absent id s n)

get_delete_desire_ok :
    (id : Identity) (s : Memory) (d : DeleteDesire)
    → get_delete_desire id s ≡ (ok d, s)
    → (rec : ResourceRecord) × (lookup id s.items ≡ some rec) × (project_delete_desire rec ≡ d)
unfolding get_delete_desire
get_delete_desire_ok id s d h =
    let (_, _, h₁) = bind_ok_same _ _ s refl h in
    let (rec, found, h₂) = bind_ok_same (find_record id) _ s (find_record-keeps id s) h₁ in
    (
      rec,
      find_record_ok id s rec found,
      cc (ap (λ (x : Result Error DeleteDesire × Memory). x.0) h₂),
    )

module _ {J : Type 0} (p : Platform J) where
  -- A successful create of an apply returns the desire with an empty status, generation and version
  -- one; the next read returns the same, and the target has no DeleteDesire left.
  pub create_apply-get :
      (d : ApplyDesire) (s t : Memory) (a : ApplyDesire)
      → create_apply_desire p d s ≡ (ok a, t)
      → (a ≡ fresh_apply d)
        × (get_apply_desire d.identity t ≡ (ok a, t))
        × (get_delete_desire (with_type type_delete d.identity) t ≡ (err not_found, t))
  unfolding new_apply_record
  create_apply-get d s t a h =
      let c = create_apply_desire_ok p d s t a h in
      let there =
        ap (lookup d.identity) c.left ∙ lookup-insert_self d.identity (new_apply_record d) _ in
      let gone =
        ap (lookup (with_type type_delete d.identity)) c.left
        ∙ lookup-insert_ne d.identity _ (new_apply_record d) _
            (typed-ne d.identity _ _ c.typed apply≢delete)
        ∙ retire_delete_ok p _ _ c.retired in
      let known : HasApply d.identity t (new_apply_record d) d.spec = record {
        typed = c.typed;
        at = there;
        specified = refl;
      } in
      (
        c.returned ∙ project-fresh d,
        get_apply_desire-HasApply known ∙ ap (λ x. (ok x, t)) (sym c.returned),
        get_delete_desire-absent _ t refl gone,
      )

  -- the branches of a create of an apply where a delete of the target is stored
  module _ (d : ApplyDesire) (s : Memory) (rec : ResourceRecord) (v : IsValid s.items)
      (there : lookup (with_type type_delete d.identity) s.items ≡ some rec)
      (valid : validate_apply p d ≡ ok tt) (same : rec.owner ≡ d.owner) where
    owner_passes : check_target_owner d.identity d.owner s ≡ (ok tt, s)
    owner_passes =
        check_target_owner-passes d.identity s rec.owner d.owner
          (target_owner_lem d.identity _ rec v refl there) same

    reach_retire :
        create_apply_desire p d s
        ≡ (retire_delete p (with_type type_delete d.identity)
              >> (refuse_existing d.identity
                  >> (store_record d.identity (new_apply_record d)
                      >> pure (project_apply_desire (new_apply_record d)))))
            s
    unfolding create_apply_desire
    reach_retire =
        bind-eq _ _ s s tt (ap (λ r. (r, s)) valid)
        ∙ bind-eq (check_target_owner d.identity d.owner) _ s s tt owner_passes

    create_pending :
        is_deleted p rec.status ≡ false → create_apply_desire p d s ≡ (err delete_pending, s)
    create_pending n =
        reach_retire
        ∙ bind-err (retire_delete p _) _ s s delete_pending
            (retire_delete-pending p _ s rec there n)

    abbrev retired : Memory
    retired = record s { items = remove (with_type type_delete d.identity) s.items }

    no_apply : lookup d.identity retired.items ≡ none
    no_apply = elim (Option-cases (lookup d.identity retired.items)) [
      | inl n ↦ n
      | inr (q, at) ↦ absurd (
          v.exclusive d.identity q rec
            (subst (λ j. lookup j s.items ≡ some q)
              (ap (λ t. with_type t d.identity) (validate_apply-type p d valid))
              (sym (
                  lookup-remove_ne (with_type type_delete d.identity) d.identity s.items (λ e.
                    typed-ne d.identity type_apply type_delete (validate_apply-type p d valid)
                      apply≢delete (sym e)))
                ∙ at))
            there)
    ]

    create_after :
        is_deleted p rec.status ≡ true
        → create_apply_desire p d s ≡ (
          ok (fresh_apply d),
          record retired { items = insert d.identity (new_apply_record d) retired.items },
        )
    unfolding store_record ◌>>=◌
    create_after y =
        reach_retire
        ∙ bind-eq (retire_delete p _) _ s retired tt (retire_delete-done p _ s rec there y)
        ∙ bind-eq (refuse_existing d.identity) _ retired retired tt
            (refuse_existing-absent d.identity retired no_apply)
        ∙ ap
            (λ x. (
              ok x,
              record retired { items = insert d.identity (new_apply_record d) retired.items },
            ))
            (project-fresh d)

  -- While the status of a target's DeleteDesire does not confirm the deletion, the create of a valid
  -- ApplyDesire of the same owner is refused as pending on a valid store, and changes nothing.
  pub create_apply-pending :
      (d : ApplyDesire) (s : Memory) (dd : DeleteDesire)
      → IsValid s.items
      → get_delete_desire (with_type type_delete d.identity) s ≡ (ok dd, s)
      → validate_apply p d ≡ ok tt
      → dd.owner ≡ d.owner
      → is_deleted p dd.status ≡ false
      → create_apply_desire p d s ≡ (err delete_pending, s)
  unfolding project_delete_desire
  create_apply-pending d s dd v got valid same n =
      let (rec, there, back) = get_delete_desire_ok _ s dd got in
      create_pending d s rec v there valid (ap (λ (x : DeleteDesire). x.owner) back ∙ same)
        (ap (λ (x : DeleteDesire). is_deleted p x.status) back ∙ n)

  -- Once the status of a target's DeleteDesire confirms the deletion, the create of a valid ApplyDesire
  -- of the same owner succeeds on a valid store, and the delete is gone.
  pub create_apply-confirmed :
      (d : ApplyDesire) (s : Memory) (dd : DeleteDesire)
      → IsValid s.items
      → get_delete_desire (with_type type_delete d.identity) s ≡ (ok dd, s)
      → validate_apply p d ≡ ok tt
      → dd.owner ≡ d.owner
      → is_deleted p dd.status ≡ true
      → (t : Memory) × (create_apply_desire p d s ≡ (ok (fresh_apply d), t))
        × (get_delete_desire (with_type type_delete d.identity) t ≡ (err not_found, t))
  unfolding project_delete_desire
  create_apply-confirmed d s dd v got valid same y =
      let (rec, there, back) = get_delete_desire_ok _ s dd got in
      let made =
        create_after d s rec v there valid (ap (λ (x : DeleteDesire). x.owner) back ∙ same)
          (ap (λ (x : DeleteDesire). is_deleted p x.status) back ∙ y) in
      (_, made, (create_apply-get d s _ _ made).2)

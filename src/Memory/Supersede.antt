-- ===== src/Memory/Supersede.antt =====
-- A delete supersedes the apply of its target (CreateDeleteDesire of pkg/desire/store/memory/store.go).
use hyperfleet_applier.Base.{◌≡◌, refl, sym, ◌∙◌, ap, some, arith}
use hyperfleet_applier.Base.Text.{text_eq_iff}
use hyperfleet_applier.Base.Dict.{
  lookup, insert, remove, lookup-insert_self, lookup-insert_ne, lookup-remove_self,
}
use hyperfleet_applier.Base.Exec.{bind_ok, bind_ok_same, bind-eq}
use hyperfleet_applier.Base.Result.{ok, err}
use hyperfleet_applier.Desire.Types.{
  type_apply, type_delete, initial_generation, Identity, identity_Eq, DeleteDesire,
}
use hyperfleet_applier.Desire.Platform.{Platform}
use hyperfleet_applier.Desire.Validate.{not_found}
use hyperfleet_applier.Memory.Record.{
  ResourceRecord, Memory, with_type, empty_status, check_target_owner, refuse_existing,
  delete_record, project_delete_desire,
}
use hyperfleet_applier.Memory.Apply.{get_apply_desire}
use hyperfleet_applier.Memory.Delete.{
  new_delete_record, find_record, create_delete_desire, get_delete_desire,
}
use hyperfleet_applier.Memory.Facts.{validate_delete-type, refuse_existing-keeps}
use hyperfleet_applier.Memory.Invariant.{apply≢delete}
use hyperfleet_applier.Memory.Lifecycle.{typed-ne, get_apply_desire-absent}
use hyperfleet_applier.Memory.Access.{write_ok}

-- the desire that a successful create returns
abbrev pub fresh_delete : DeleteDesire → DeleteDesire
fresh_delete d = record d { status = empty_status; generation = initial_generation; version = 1 }

project-fresh_delete :
    (d : DeleteDesire) → project_delete_desire (new_delete_record d) ≡ fresh_delete d
unfolding project_delete_desire new_delete_record
project-fresh_delete d = refl

find_record-there :
    (id : Identity) (s : Memory) (rec : ResourceRecord)
    → lookup id s.items ≡ some rec
    → find_record id s ≡ (ok rec, s)
unfolding find_record
find_record-there id s rec at = ground (arith, at)

get_delete_desire-there :
    (id : Identity) (s : Memory) (rec : ResourceRecord)
    → id.type ≡ type_delete
    → lookup id s.items ≡ some rec
    → get_delete_desire id s ≡ (ok (project_delete_desire rec), s)
unfolding get_delete_desire
get_delete_desire-there id s rec ty at =
    bind-eq _ _ s s tt (rw ((text_eq_iff id.type type_delete).1 ty))
    ∙ bind-eq (find_record id) _ s s rec (find_record-there id s rec at)

module _ {J : Type 0} (p : Platform J) where
  -- what a successful create of a delete found and left
  record DeletedNew (d : DeleteDesire) (t : Memory) (a : DeleteDesire) : Type 0 where
    before : Memory
    typed : d.identity.type ≡ type_delete
    left :
        t.items
        ≡ insert d.identity
            (new_delete_record d)
            (remove (with_type type_apply d.identity) before.items)
    returned : a ≡ project_delete_desire (new_delete_record d)

  create_delete_desire_ok :
      (d : DeleteDesire) (s t : Memory) (a : DeleteDesire)
      → create_delete_desire p d s ≡ (ok a, t)
      → DeletedNew d t a
  unfolding create_delete_desire delete_record
  create_delete_desire_ok d s t a h =
      let (_, checked, h₁) = bind_ok_same _ _ s refl h in
      let (_, owned, h₂) = bind_ok (check_target_owner d.identity d.owner) _ s h₁ in
      let (_, _, h₃) =
        bind_ok_same (refuse_existing d.identity) _ _ (refuse_existing-keeps d.identity _) h₂ in
      let (_, _, h₄) = bind_ok (delete_record (with_type type_apply d.identity)) _ _ h₃ in
      let (returned, left) = write_ok d.identity _ _ a _ t h₄ in
      record {
        before = (check_target_owner d.identity d.owner s).1;
        typed = validate_delete-type p d checked;
        left = ap (λ (u : Memory). u.items) left;
        returned = returned;
      }

  -- A successful create of a delete returns the desire with an empty status, generation and version
  -- one; the next read returns the same, and the target has no ApplyDesire left.
  pub create_delete-get :
      (d : DeleteDesire) (s t : Memory) (a : DeleteDesire)
      → create_delete_desire p d s ≡ (ok a, t)
      → (a ≡ fresh_delete d)
        × (get_delete_desire d.identity t ≡ (ok a, t))
        × (get_apply_desire (with_type type_apply d.identity) t ≡ (err not_found, t))
  create_delete-get d s t a h =
      let c = create_delete_desire_ok d s t a h in
      let there =
        ap (lookup d.identity) c.left ∙ lookup-insert_self d.identity (new_delete_record d) _ in
      let gone =
        ap (lookup (with_type type_apply d.identity)) c.left
        ∙ lookup-insert_ne d.identity _ (new_delete_record d) _
            (typed-ne d.identity _ _ c.typed (λ e. apply≢delete (sym e)))
        ∙ lookup-remove_self (with_type type_apply d.identity) c.before.items in
      (
        c.returned ∙ project-fresh_delete d,
        get_delete_desire-there d.identity t _ c.typed there ∙ ap (λ x. (ok x, t)) (sym c.returned),
        get_apply_desire-absent _ t refl gone,
      )

-- ===== src/Memory/Creates.antt =====
-- The creates of the in-memory store keep the invariant of its map.
use hyperfleet_applier.Base.{◌≡◌, inl, inr, refl, sym, ◌∙◌, subst, some, arith}
use hyperfleet_applier.Base.Text.{Text}
use hyperfleet_applier.Base.Dict.{lookup, remove, lookup-remove}
use hyperfleet_applier.Base.Exec.{bind_inv, bind_same}
use hyperfleet_applier.Base.Result.{ok}
use hyperfleet_applier.Desire.Types.{
  type_apply, type_delete, type_read, Identity, identity_Eq, identity_eq_iff, ApplyDesire,
  DeleteDesire, ReadDesire,
}
use hyperfleet_applier.Desire.Platform.{Platform}
use hyperfleet_applier.Memory.Record.{
  ResourceRecord, Memory, with_type, check_target_owner, delete_record, refuse_existing,
}
use hyperfleet_applier.Memory.Apply.{create_apply_desire, new_apply_record, retire_delete}
use hyperfleet_applier.Memory.Delete.{create_delete_desire, new_delete_record}
use hyperfleet_applier.Memory.Read.{create_read_desire, new_read_record}
use hyperfleet_applier.Memory.Invariant.{
  IsValid, IsWellFormed, IsFresh, SameTarget, create-IsValid, remove-IsValid,
}
use hyperfleet_applier.Memory.Facts.{
  Valid, none≢some, check_target_owner-keeps, check_target_owner_ok, target_owner_lem,
  refuse_existing-keeps, retire_delete-sub, retire_delete-IsValid, retire_delete_ok,
  validate_apply-type, validate_delete-type, validate_read-type, write_IsValid,
}

-- After a successful owner check every desire for the target has the attempted owner.
owned_lem :
    (id b : Identity) (attempted : Text) (q : ResourceRecord) (s : Memory)
    → Valid s
    → (check_target_owner id attempted s).0 ≡ ok tt
    → SameTarget id b
    → lookup b s.items ≡ some q
    → q.owner ≡ attempted
owned_lem id b attempted q s v h t at =
    check_target_owner_ok id attempted q.owner s h (target_owner_lem id b q v t at)

new_apply_record-IsWellFormed :
    (d : ApplyDesire) → d.identity.type ≡ type_apply → IsWellFormed d.identity (new_apply_record d)
unfolding new_apply_record
new_apply_record-IsWellFormed d t = record {
  keyed = refl;
  known = inl t;
  specified = λ _. (d.spec, refl);
  unspecified = λ n. absurd (n t);
}

new_delete_record-IsWellFormed :
    (d : DeleteDesire)
    → d.identity.type ≡ type_delete
    → IsWellFormed d.identity (new_delete_record d)
unfolding new_delete_record
new_delete_record-IsWellFormed d t = record {
  keyed = refl;
  known = inr (inl t);
  specified = λ a. cc;
  unspecified = λ _. refl;
}

new_read_record-IsWellFormed :
    (d : ReadDesire) → d.identity.type ≡ type_read → IsWellFormed d.identity (new_read_record d)
unfolding new_read_record
new_read_record-IsWellFormed d t = record {
  keyed = refl;
  known = inr (inr t);
  specified = λ a. cc;
  unspecified = λ _. refl;
}

module _ {J : Type 0} (p : Platform J) where
  create_apply-IsFresh :
      (d : ApplyDesire) (s : Memory)
      → Valid s
      → d.identity.type ≡ type_apply
      → (check_target_owner d.identity d.owner s).0 ≡ ok tt
      → (t : Memory) → t.items ≡ s.items
      → (retire_delete p (with_type type_delete d.identity) t).0 ≡ ok tt
      → IsFresh (retire_delete p (with_type type_delete d.identity) t).1.items d.identity d.owner
  create_apply-IsFresh d s v ty owned t same retired = record {
    same_owner = λ b q h at.
        owned_lem d.identity b d.owner q s v owned h
          (subst (λ i. lookup b i ≡ some q) same (retire_delete-sub p _ b q t at));
    no_delete = λ q _ at. none≢some (sym (retire_delete_ok p _ t retired) ∙ at);
    no_apply = λ q a. cc;
  }

  pub create_apply_desire-IsValid :
      (d : ApplyDesire) (s : Memory) → Valid s → Valid (create_apply_desire p d s).1
  unfolding create_apply_desire new_apply_record
  create_apply_desire-IsValid d s v = bind_same Valid _ _ s refl v λ _ checked.
      let ty = validate_apply-type p d checked in
      let v' = subst IsValid (sym (check_target_owner-keeps d.identity d.owner s)) v in
      bind_inv Valid _ _ s v' λ _ owned.
        bind_inv Valid _ _ _ (retire_delete-IsValid p _ _ v') λ _ retired.
          bind_same Valid (refuse_existing d.identity) _ _ (refuse_existing-keeps d.identity _)
            (retire_delete-IsValid p _ _ v')
            λ _ _. write_IsValid d.identity _ _ _ (
              create-IsValid d.identity _ (new_apply_record-IsWellFormed d ty)
                (create_apply-IsFresh d s v ty owned _
                  (check_target_owner-keeps d.identity d.owner s) retired)
                (retire_delete-IsValid p _ _ v'))

  create_delete-IsFresh :
      (d : DeleteDesire) (s : Memory)
      → Valid s
      → d.identity.type ≡ type_delete
      → (check_target_owner d.identity d.owner s).0 ≡ ok tt
      → IsFresh (remove (with_type type_apply d.identity) s.items) d.identity d.owner
  create_delete-IsFresh d s v ty owned = record {
    same_owner = λ b q h at.
        owned_lem d.identity b d.owner q s v owned h
          (ground (arith, lookup-remove (with_type type_apply d.identity) b s.items));
    no_delete = λ q a. cc;
    no_apply = λ q _ at. ground (
      arith,
      lookup-remove (with_type type_apply d.identity) (with_type type_apply d.identity) s.items,
      identity_eq_iff (with_type type_apply d.identity) (with_type type_apply d.identity),
    );
  }

  pub create_delete_desire-IsValid :
      (d : DeleteDesire) (s : Memory) → Valid s → Valid (create_delete_desire p d s).1
  unfolding create_delete_desire new_delete_record delete_record
  create_delete_desire-IsValid d s v = bind_same Valid _ _ s refl v λ _ checked.
      let ty = validate_delete-type p d checked in
      let same = check_target_owner-keeps d.identity d.owner s in
      let v' = subst IsValid (sym same) v in
      bind_inv Valid _ _ s v' λ _ owned.
        bind_same Valid (refuse_existing d.identity) _ _ (refuse_existing-keeps d.identity _) v'
          λ _ _. bind_inv Valid _ _ _ (remove-IsValid _ v') λ _ _. write_IsValid d.identity _ _ _ (
            create-IsValid d.identity _ (new_delete_record-IsWellFormed d ty)
              (subst (λ i. IsFresh (remove (with_type type_apply d.identity) i) d.identity d.owner)
                (sym same) (create_delete-IsFresh d s v ty owned))
              (remove-IsValid _ v'))

  create_read-IsFresh :
      (d : ReadDesire) (s : Memory)
      → Valid s
      → d.identity.type ≡ type_read
      → (check_target_owner d.identity d.owner s).0 ≡ ok tt
      → IsFresh s.items d.identity d.owner
  create_read-IsFresh d s v ty owned = record {
    same_owner = λ b q h at. owned_lem d.identity b d.owner q s v owned h at;
    no_delete = λ q a. cc;
    no_apply = λ q a. cc;
  }

  pub create_read_desire-IsValid :
      (d : ReadDesire) (s : Memory) → Valid s → Valid (create_read_desire p d s).1
  unfolding create_read_desire new_read_record
  create_read_desire-IsValid d s v = bind_same Valid _ _ s refl v λ _ checked.
      let ty = validate_read-type p d checked in
      let same = check_target_owner-keeps d.identity d.owner s in
      let v' = subst IsValid (sym same) v in
      bind_inv Valid _ _ s v' λ _ owned.
        bind_same Valid (refuse_existing d.identity) _ _ (refuse_existing-keeps d.identity _) v'
          λ _ _. write_IsValid d.identity _ _ _ (
            create-IsValid d.identity _ (new_read_record-IsWellFormed d ty)
              (subst (λ i. IsFresh i d.identity d.owner) (sym same)
                (create_read-IsFresh d s v ty owned))
              v')

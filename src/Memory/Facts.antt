-- ===== src/Memory/Facts.antt =====
-- What the shared steps of the in-memory store's operations find and leave.
use hyperfleet_applier.Base.Dict.{remove-IsUnique, IsUnique, remove, lookup, insert, lookup-remove}
use hyperfleet_applier.Desire.Validate.{
  delete_pending, not_found, Error, validate_apply, validate_delete, validate_read,
}
use hyperfleet_applier.Desire.Contract.{is_deleted}
use hyperfleet_applier.Base.{
  ◌≡◌, ◌⊎◌, inl, inr, refl, sym, ◌∙◌, ap, true, false, Option, none, some, List, [], ◌∷◌,
  Option-cases, arith,
}
use hyperfleet_applier.Base.Text.{Text, text_Eq, text_eq_iff}
use hyperfleet_applier.Base.Exec.{bind_inv, ◌>>◌, pure}
use hyperfleet_applier.Base.Result.{ok, err}
use hyperfleet_applier.Desire.Types.{
  DesireType, all_types, type_apply, type_delete, type_read, Identity, identity_Eq, ApplySpec,
  identity_eq_iff, ApplyDesire, DeleteDesire, ReadDesire,
}
use hyperfleet_applier.Desire.Platform.{Platform}
use hyperfleet_applier.Memory.Record.{
  ResourceRecord, Items, Memory, with_type, target_owner, first_owner, check_owner_in,
  check_target_owner, store_record, refuse_existing,
}
use hyperfleet_applier.Memory.Apply.{find_apply, retire_delete}
use hyperfleet_applier.Memory.Delete.{find_record}
use hyperfleet_applier.Memory.Invariant.{
  IsValid, IsValid-sub, IsWellFormed, IsKnown, HasSpec, SameTarget,
}

abbrev IsAmong : DesireType → List DesireType → Type 0
IsAmong t [] = ⊥
IsAmong t (u ∷ us) = (t ≡ u) ⊎ IsAmong t us

pub none≢some {ℓ} : {A : Type ℓ} {r : A} → ◌≡◌ {A = Option A} none (some r) → ⊥
none≢some h = cc

abbrev pub Valid : Memory → Type 0
Valid s = IsValid s.items

-- what `find_apply` found
pub find_apply_ok :
    (id : Identity) (s : Memory) (rec : ResourceRecord) (spec : ApplySpec)
    → (find_apply id s).0 ≡ ok (rec, spec)
    → (lookup id s.items ≡ some rec) × (rec.apply ≡ some spec)
unfolding find_apply
find_apply_ok id s rec spec h = ground arith

pub find_apply-keeps : (id : Identity) (s : Memory) → (find_apply id s).1 ≡ s
unfolding find_apply
find_apply-keeps id s = ground arith

-- A record that keeps its identity, its owner and whether it has a spec stays well formed.
pub respec-IsWellFormed :
    (id : Identity) (old new : ResourceRecord)
    → new.identity ≡ old.identity
    → (HasSpec old → HasSpec new)
    → (old.apply ≡ none → new.apply ≡ none)
    → IsWellFormed id old
    → IsWellFormed id new
respec-IsWellFormed id old new i keep lose w = record {
  keyed = i ∙ w.keyed;
  known = w.known;
  specified = λ t. keep (w.specified t);
  unspecified = λ t. lose (w.unspecified t);
}

pub find_record_ok :
    (id : Identity) (s : Memory) (rec : ResourceRecord)
    → (find_record id s).0 ≡ ok rec
    → lookup id s.items ≡ some rec
unfolding find_record
find_record_ok id s rec h = ground arith

pub find_record-keeps : (id : Identity) (s : Memory) → (find_record id s).1 ≡ s
unfolding find_record
find_record-keeps id s = ground arith

pub refuse_existing-keeps : (id : Identity) (s : Memory) → (refuse_existing id s).1 ≡ s
unfolding refuse_existing
refuse_existing-keeps id s = ground arith

pub refuse_existing_error :
    (id : Identity) (s : Memory) (x : Error)
    → (refuse_existing id s).0 ≡ err x
    → (q : ResourceRecord) × (lookup id s.items ≡ some q)
unfolding refuse_existing
refuse_existing_error id s x h = ground arith

pub check_owner_in-keeps :
    (existing attempted : Text) (s : Memory)
    → (check_owner_in existing attempted s).1.items ≡ s.items
unfolding check_owner_in
check_owner_in-keeps existing attempted s = refl

pub check_owner_in_ok :
    (existing attempted : Text) (s : Memory)
    → (check_owner_in existing attempted s).0 ≡ ok tt
    → existing ≡ attempted
unfolding check_owner_in
check_owner_in_ok existing attempted s h = ground (arith, text_eq_iff existing attempted)

pub check_target_owner-keeps :
    (id : Identity) (attempted : Text) (s : Memory)
    → (check_target_owner id attempted s).1.items ≡ s.items
unfolding check_target_owner
check_target_owner-keeps id attempted s = elim (Option-cases (target_owner s.items id)) [
  | inl e ↦ rw (e, check_target_owner)
  | inr (o, e) ↦ rw (e, check_target_owner) (check_owner_in-keeps o attempted s)
]

pub check_target_owner_ok :
    (id : Identity) (attempted owner : Text) (s : Memory)
    → (check_target_owner id attempted s).0 ≡ ok tt
    → target_owner s.items id ≡ some owner
    → owner ≡ attempted
unfolding check_target_owner
check_target_owner_ok id attempted owner s h e =
    check_owner_in_ok owner attempted s (rw (e, check_target_owner) at h)

pub write_IsValid :
    {A : Type 0} (id : Identity) (rec : ResourceRecord) (a : A) (s : Memory)
    → IsValid (insert id rec s.items)
    → Valid ((store_record id rec >> pure a) s).1
unfolding store_record
write_IsValid id rec a s h = bind_inv Valid _ _ s h λ _ _. h

module _ (items : Items) (id : Identity) (t : DesireType) (ts : List DesireType) where
  first_owner-here :
      (r : ResourceRecord)
      → lookup (with_type t id) items ≡ some r
      → first_owner items id (t ∷ ts) ≡ some r.owner
  unfolding first_owner
  first_owner-here r e = ground arith

  first_owner-next :
      lookup (with_type t id) items ≡ none → first_owner items id (t ∷ ts) ≡ first_owner items id ts
  unfolding first_owner
  first_owner-next e = ground arith

-- The search stops at a sibling, so at one with the owner of every desire for the target.
first_owner_lem :
    {items : Items} (id b : Identity) (q : ResourceRecord) (ts : List DesireType)
    → IsValid items
    → SameTarget id b
    → lookup b items ≡ some q
    → IsAmong b.type ts
    → first_owner items id ts ≡ some q.owner
first_owner_lem id b q [] v s h m = absurd m
first_owner_lem {items} id b q (t ∷ ts) v s h m =
    elim (Option-cases (lookup (with_type t id) items)) [
      | inr (r, e) ↦ first_owner-here items id t ts r e ∙ ap some (v.one_owner _ b r q s e h)
      | inl n ↦ first_owner-next items id t ts n ∙ first_owner_lem id b q ts v s h (later n m)
    ]
  where
    later :
        lookup (with_type t id) items ≡ none → (b.type ≡ t) ⊎ IsAmong b.type ts → IsAmong b.type ts
    later n (inl e) = absurd (
        none≢some (
          sym n ∙ ap (λ u. lookup (with_type u id) items) (sym e) ∙ ap (λ j. lookup j items) s ∙ h))
    later n (inr k) = k

-- The owner that a create compares with is the owner of every desire for the target.
pub target_owner_lem :
    {items : Items} (id b : Identity) (q : ResourceRecord)
    → IsValid items
    → SameTarget id b
    → lookup b items ≡ some q
    → target_owner items id ≡ some q.owner
unfolding target_owner
target_owner_lem {items} id b q v t h =
    first_owner_lem id b q all_types v t h (known-IsAmong b.type (v.well_formed b q h).known)
  where
    known-IsAmong : (t : DesireType) → IsKnown t → IsAmong t all_types
    known-IsAmong t (inl e) = inl e
    known-IsAmong t (inr (inl e)) = inr (inl e)
    known-IsAmong t (inr (inr e)) = inr (inr (inl e))

module _ {J : Type 0} (p : Platform J) where
  pub retire_delete-sub :
      (id j : Identity) (q : ResourceRecord) (s : Memory)
      → lookup j (retire_delete p id s).1.items ≡ some q
      → lookup j s.items ≡ some q
  unfolding retire_delete
  retire_delete-sub id j q s h = ground (arith, lookup-remove id j s.items)

  retire_delete-IsUnique :
      (id : Identity) (s : Memory) → IsUnique s.items → IsUnique (retire_delete p id s).1.items
  unfolding retire_delete
  retire_delete-IsUnique id s u = ground (arith, remove-IsUnique id s.items u)

  pub retire_delete-IsValid :
      (id : Identity) (s : Memory) → Valid s → Valid (retire_delete p id s).1
  retire_delete-IsValid id s v =
      IsValid-sub (retire_delete p id s).1.items (retire_delete-IsUnique id s v.unique)
        (λ j q. retire_delete-sub id j q s) v

  pub retire_delete-none :
      (id : Identity) (s : Memory)
      → lookup id s.items ≡ none
      → (retire_delete p id s).1.items ≡ s.items
  unfolding retire_delete
  retire_delete-none id s h = ground arith

  pub retire_delete_ok :
      (id : Identity) (s : Memory)
      → (retire_delete p id s).0 ≡ ok tt
      → lookup id (retire_delete p id s).1.items ≡ none
  unfolding retire_delete
  retire_delete_ok id s h = ground (arith, lookup-remove id id s.items, identity_eq_iff id id)

  pub validate_apply-type :
      (d : ApplyDesire) → validate_apply p d ≡ ok tt → d.identity.type ≡ type_apply
  unfolding validate_apply
  validate_apply-type d h = ground (arith, text_eq_iff d.identity.type type_apply)

  pub validate_delete-type :
      (d : DeleteDesire) → validate_delete p d ≡ ok tt → d.identity.type ≡ type_delete
  unfolding validate_delete
  validate_delete-type d h = ground (arith, text_eq_iff d.identity.type type_delete)

  pub validate_read-type :
      (d : ReadDesire) → validate_read p d ≡ ok tt → d.identity.type ≡ type_read
  unfolding validate_read
  validate_read-type d h = ground (arith, text_eq_iff d.identity.type type_read)

  pub retire_delete-pending :
      (id : Identity) (s : Memory) (rec : ResourceRecord)
      → lookup id s.items ≡ some rec
      → is_deleted p rec.status ≡ false
      → retire_delete p id s ≡ (err delete_pending, s)
  unfolding retire_delete
  retire_delete-pending id s rec h n = ground (arith, h, n)

  pub retire_delete-done :
      (id : Identity) (s : Memory) (rec : ResourceRecord)
      → lookup id s.items ≡ some rec
      → is_deleted p rec.status ≡ true
      → retire_delete p id s ≡ (ok tt, record s { items = remove id s.items })
  unfolding retire_delete
  retire_delete-done id s rec h n = ground (arith, h, n)

module _ (id : Identity) (s : Memory) where
  pub find_record-absent : lookup id s.items ≡ none → find_record id s ≡ (err not_found, s)
  unfolding find_record
  find_record-absent h = ground (arith, h)

  pub find_apply-absent : lookup id s.items ≡ none → find_apply id s ≡ (err not_found, s)
  unfolding find_apply
  find_apply-absent h = ground (arith, h)

  pub refuse_existing-absent : lookup id s.items ≡ none → refuse_existing id s ≡ (ok tt, s)
  unfolding refuse_existing
  refuse_existing-absent h = ground (arith, h)

  pub check_target_owner-passes :
      (owner attempted : Text)
      → target_owner s.items id ≡ some owner
      → owner ≡ attempted
      → check_target_owner id attempted s ≡ (ok tt, s)
  unfolding check_owner_in check_target_owner
  check_target_owner-passes owner attempted h e =
      rw (h, check_target_owner) (ground (arith, text_eq_iff owner attempted))

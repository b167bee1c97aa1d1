-- ===== src/Memory/Invariant.antt =====
-- The invariant of the in-memory store's map, and how its writes keep it.
use hyperfleet_applier.Base.Dict.{
  IsUnique, insert-IsUnique, remove-IsUnique, remove_if-IsUnique, lookup, insert, remove, remove_if,
  lookup-insert_cases, lookup-remove, lookup-remove_if, lookup-empty,
}
use hyperfleet_applier.Base.{
  ◌≡◌, ◌≢◌, ◌⊎◌, inl, inr, refl, sym, ◌∙◌, ap, subst, Bool, none, some, [], arith,
}
use hyperfleet_applier.Base.Text.{Text, text_Eq}
use hyperfleet_applier.Desire.Types.{
  DesireType, type_apply, type_delete, type_read, Identity, identity_Eq, ApplySpec,
}
use hyperfleet_applier.Memory.Record.{ResourceRecord, Items, with_type}

-- `a` and `b` are desires for one Kubernetes resource.
abbrev pub SameTarget : Identity → Identity → Type 0
SameTarget a b = with_type b.type a ≡ b

-- a type that has a record is one of the three
abbrev pub IsKnown : DesireType → Type 0
IsKnown t = (t ≡ type_apply) ⊎ ((t ≡ type_delete) ⊎ (t ≡ type_read))

abbrev pub HasSpec : ResourceRecord → Type 0
HasSpec rec = (spec : ApplySpec) × (rec.apply ≡ some spec)

pub record IsWellFormed (id : Identity) (rec : ResourceRecord) : Type 0 where
  pub keyed : rec.identity ≡ id
  pub known : IsKnown id.type
  pub specified : id.type ≡ type_apply → HasSpec rec
  pub unspecified : id.type ≢ type_apply → rec.apply ≡ none

-- No identity has two records, every record is filed under its identity and has the fields of its type, the desires for one
-- resource have one owner, and no resource has both an apply and a delete.
pub record IsValid (items : Items) : Type 0 where
  pub unique : IsUnique items
  pub well_formed :
      (id : Identity) (rec : ResourceRecord) → lookup id items ≡ some rec → IsWellFormed id rec
  pub one_owner :
      (a b : Identity) (r q : ResourceRecord)
      → SameTarget a b
      → lookup a items ≡ some r
      → lookup b items ≡ some q
      → r.owner ≡ q.owner
  pub exclusive :
      (id : Identity) (r q : ResourceRecord)
      → lookup (with_type type_apply id) items ≡ some r
      → lookup (with_type type_delete id) items ≢ some q

pub empty-IsValid : IsValid []
empty-IsValid = record {
  unique = tt;
  well_formed = λ id rec h. cc (lookup-empty {V = ResourceRecord} id);
  one_owner = λ a b r q t h k. cc (lookup-empty {V = ResourceRecord} a);
  exclusive = λ id r q h k. cc (lookup-empty {V = ResourceRecord} (with_type type_apply id));
}

-- A map whose records are all in a valid map is valid.
pub IsValid-sub :
    {items : Items} (less : Items)
    → IsUnique less
    → ((id : Identity) (rec : ResourceRecord)
        → lookup id less ≡ some rec
        → lookup id items ≡ some rec)
    → IsValid items
    → IsValid less
IsValid-sub less u sub v = record {
  unique = u;
  well_formed = λ id rec h. v.well_formed id rec (sub id rec h);
  one_owner = λ a b r q t h k. v.one_owner a b r q t (sub a r h) (sub b q k);
  exclusive = λ id r q h k. v.exclusive id r q (sub _ r h) (sub _ q k);
}

pub remove-IsValid : {items : Items} (id : Identity) → IsValid items → IsValid (remove id items)
remove-IsValid {items} id v =
    IsValid-sub (remove id items) (remove-IsUnique id items v.unique)
      (λ j rec h. ground (arith, lookup-remove id j items)) v

pub remove_if-IsValid :
    {items : Items} (p : Identity → Bool) → IsValid items → IsValid (remove_if p items)
remove_if-IsValid {items} p v =
    IsValid-sub (remove_if p items) (remove_if-IsUnique p items v.unique)
      (λ j rec h. ground (arith, lookup-remove_if p j items)) v

module _ (items : Items) (id : Identity) (old new : ResourceRecord) where
  owner_before :
      lookup id items ≡ some old
      → new.owner ≡ old.owner
      → (j : Identity) (rec : ResourceRecord) → lookup j (insert id new items) ≡ some rec
      → (was : ResourceRecord) × (lookup j items ≡ some was) × (rec.owner ≡ was.owner)
  owner_before found same j rec h = elim (lookup-insert_cases id j new rec items h) [
    | inl e ↦ (old, cc (e.0, found), cc (e.1, same))
    | inr k ↦ (rec, k, refl)
  ]

-- A record is replaced by one with the same owner.
pub update-IsValid :
    {items : Items} (id : Identity) (old new : ResourceRecord)
    → lookup id items ≡ some old
    → new.owner ≡ old.owner
    → IsWellFormed id new
    → IsValid items
    → IsValid (insert id new items)
update-IsValid {items} id old new found same wf v = record {
  unique = insert-IsUnique id new items v.unique;
  well_formed = λ j rec h. elim (lookup-insert_cases id j new rec items h) [
    | inl e ↦ subst (λ x. IsWellFormed x rec) e.0 (subst (IsWellFormed id) e.1 wf)
    | inr k ↦ v.well_formed j rec k
  ];
  one_owner = λ a b r q t h k.
      let (r', hr, er) = owner_before items id old new found same a r h in
      let (q', hq, eq) = owner_before items id old new found same b q k in
      er ∙ v.one_owner a b r' q' t hr hq ∙ sym eq;
  exclusive = λ j r q h k.
      let (r', hr, _) = owner_before items id old new found same _ r h in
      let (q', hq, _) = owner_before items id old new found same _ q k in v.exclusive j r' q' hr hq;
}

pub apply≢delete : type_apply ≢ type_delete
apply≢delete h = cc

-- the owner that a create has to match, and the sibling that it must not meet
pub record IsFresh (items : Items) (id : Identity) (owner : Text) : Type 0 where
  pub same_owner :
      (b : Identity) (q : ResourceRecord)
      → SameTarget id b
      → lookup b items ≡ some q
      → q.owner ≡ owner
  pub no_delete :
      (q : ResourceRecord) → id.type ≡ type_apply → lookup (with_type type_delete id) items ≢ some q
  pub no_apply :
      (q : ResourceRecord) → id.type ≡ type_delete → lookup (with_type type_apply id) items ≢ some q

SameTarget-sym : (a b : Identity) → SameTarget a b → SameTarget b a
SameTarget-sym a b t = ap (with_type a.type) (sym t)

-- A record is added that agrees with its siblings.
pub create-IsValid :
    {items : Items} (id : Identity) (new : ResourceRecord)
    → IsWellFormed id new
    → IsFresh items id new.owner
    → IsValid items
    → IsValid (insert id new items)
create-IsValid {items} id new wf f v = record {
  unique = insert-IsUnique id new items v.unique;
  well_formed = λ j rec h. elim (lookup-insert_cases id j new rec items h) [
    | inl e ↦ subst (λ x. IsWellFormed x rec) e.0 (subst (IsWellFormed id) e.1 wf)
    | inr k ↦ v.well_formed j rec k
  ];
  one_owner = λ a b r q t h k. elim (lookup-insert_cases id a new r items h) [
    | inl e ↦ elim (lookup-insert_cases id b new q items k) [
      | inl e' ↦ ap (λ (x : ResourceRecord). x.owner) (sym e.1 ∙ e'.1)
      | inr k' ↦
          ap (λ (x : ResourceRecord). x.owner) (sym e.1)
          ∙ sym (f.same_owner b q (subst (λ x. SameTarget x b) (sym e.0) t) k')
    ]
    | inr h' ↦ elim (lookup-insert_cases id b new q items k) [
      | inl e' ↦
          f.same_owner a r (subst (λ x. SameTarget x a) (sym e'.0) (SameTarget-sym a b t)) h'
          ∙ ap (λ (x : ResourceRecord). x.owner) e'.1
      | inr k' ↦ v.one_owner a b r q t h' k'
    ]
  ];
  exclusive = λ j r q h k. elim (lookup-insert_cases id _ new r items h) [
    | inl e ↦ elim (lookup-insert_cases id _ new q items k) [
      | inl e' ↦ absurd (apply≢delete (ap (λ (x : Identity). x.type) (sym e.0 ∙ e'.0)))
      | inr k' ↦
          f.no_delete q (ap (λ (x : Identity). x.type) e.0)
            (cc (ap (with_type type_delete) e.0, k'))
    ]
    | inr h' ↦ elim (lookup-insert_cases id _ new q items k) [
      | inl e' ↦
          f.no_apply r (ap (λ (x : Identity). x.type) e'.0)
            (cc (ap (with_type type_apply) e'.0, h'))
      | inr k' ↦ v.exclusive j r q h' k'
    ]
  ];
}

-- ===== src/Desire/Selector.antt =====
-- PrefixSelector.Matches against a description of what a selector selects.
use hyperfleet_applier.Base.{
  ◌≡◌, ◌⊎◌, ◌↔◌, inl, inr, sym, ap, Bool, true, not, ◌&&◌, [], ◌++◌, ◌==◌, Bool-cases, arith,
}
use hyperfleet_applier.Base.Text.{
  Text, text_Eq, text_eq_iff, has_prefix, has_prefix_iff, has_prefix-append,
}
use hyperfleet_applier.Desire.Types.{Identity}
use hyperfleet_applier.Desire.Contract.{PrefixSelector, matches}

-- An identity that a selector describes: an empty field of the selector says nothing, the group and
-- the resource start with the selector's, and the other fields are the selector's.
pub record Selected (sel : PrefixSelector) (id : Identity) : Type 0 where
  pub type : (sel.type ≡ []) ⊎ (id.type ≡ sel.type)
  pub group : (r : Text) × (id.group ≡ sel.group ++ r)
  pub resource : (r : Text) × (id.resource ≡ sel.resource ++ r)
  pub namespace : (sel.namespace ≡ []) ⊎ (id.namespace ≡ sel.namespace)
  pub name : (sel.name ≡ []) ⊎ (id.name ≡ sel.name)

abbrev exact : Text → Text → Bool
exact want have = not (not (want == []) && not (have == want))

abbrev starts : Text → Text → Bool
starts want have = not (not (want == []) && not (has_prefix have want))

exact_iff : (want have : Text) → (exact want have ≡ true) ↔ ((want ≡ []) ⊎ (have ≡ want))
exact_iff want have = (
  λ h. elim (Bool-cases (want == [])) [
    | inl y ↦ inl ((text_eq_iff want []).0 y)
    | inr n ↦ inr (ground (arith, n, text_eq_iff have want))
  ],
  λ h. ground (arith, text_eq_iff want [], text_eq_iff have want),
)

starts_iff : (want have : Text) → (starts want have ≡ true) ↔ ((r : Text) × (have ≡ want ++ r))
starts_iff want have = (
  λ h. elim (Bool-cases (want == [])) [
    | inl y ↦ (have, ap (λ w. w ++ have) (sym ((text_eq_iff want []).0 y)))
    | inr n ↦ has_prefix_iff have want (ground (arith, n))
  ],
  λ h. ground (arith, ap (λ x. has_prefix x want) h.1, has_prefix-append want h.0),
)

five_iff :
    (a b c d e : Bool)
    → (a && b && c && d && e ≡ true)
      ↔ ((a ≡ true) × (b ≡ true) × (c ≡ true) × (d ≡ true) × (e ≡ true))
five_iff a b c d e = (λ h. ground arith, λ h. ground arith)

-- A selector matches exactly the identities that it describes.
pub matches_iff : (sel : PrefixSelector) (id : Identity) → (matches sel id ≡ true) ↔ Selected sel id
unfolding matches
matches_iff sel id = (
  λ h.
      let f =
        (five_iff (exact sel.type id.type) (starts sel.group id.group)
            (starts sel.resource id.resource) (exact sel.namespace id.namespace)
            (exact sel.name id.name)).0
          h in
      record {
        type = (exact_iff sel.type id.type).0 f.0;
        group = (starts_iff sel.group id.group).0 f.1;
        resource = (starts_iff sel.resource id.resource).0 f.2;
        namespace = (exact_iff sel.namespace id.namespace).0 f.3;
        name = (exact_iff sel.name id.name).0 f.4;
      },
  λ s.
      (five_iff (exact sel.type id.type) (starts sel.group id.group)
          (starts sel.resource id.resource) (exact sel.namespace id.namespace)
          (exact sel.name id.name)).1
        (
          (exact_iff sel.type id.type).1 s.type,
          (starts_iff sel.group id.group).1 s.group,
          (starts_iff sel.resource id.resource).1 s.resource,
          (exact_iff sel.namespace id.namespace).1 s.namespace,
          (exact_iff sel.name id.name).1 s.name,
        ),
)

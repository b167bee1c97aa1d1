-- ===== src/Controllers/ReadDesire/Same.antt =====
-- Which contents the read controller takes to be the same (internal/controllers/readdesire/status.go).
use hyperfleet_applier.Controllers.ReadDesire.Content.{
  canonical_decoded, Json, object, null, boolean, number, string, array, Fields, no_field, field,
  JsonCodec, is_managed, drop_managed, drop_managed_in, normalize, metadata_field,
  canonical_content, same_canonical, semantic_content_equal,
}
use hyperfleet_applier.Base.{
  if◌then◌else◌, ◌↔◌, ◌≡◌, ◌⊎◌, inl, inr, refl, sym, ◌∙◌, ap, true, Bool-cases, Option, none, some,
  ◌==◌, arith,
}
use hyperfleet_applier.Base.Text.{Text, text_Eq, text_eq_iff}

module _ (json : JsonCodec) where
  -- two contents are the same text, or have the same canonical one
  abbrev pub Agree : Text → Text → Type 0
  Agree a b =
      (a ≡ b)
      ⊎ ((c : Text) × (canonical_content json a ≡ some c) × (canonical_content json b ≡ some c))

  same_canonical_iff :
      (o o' : Option Text)
      → (same_canonical json o o' ≡ true) ↔ ((c : Text) × (o ≡ some c) × (o' ≡ some c))
  same_canonical_iff none o' = (λ h. cc, λ (c, h, k). cc)
  same_canonical_iff (some a) none = (λ h. cc, λ (c, h, k). cc)
  same_canonical_iff (some a) (some b) =
      (λ h. (a, refl, ap some (sym ((text_eq_iff a b).0 h))), λ (c, h, k). (text_eq_iff a b).1 (cc))

  canonical_content-object :
      (a rest : Text) (fs : Fields)
      → json.decode_object a ≡ some (some fs, rest)
      → json.at_eof rest ≡ true
      → canonical_content json a ≡ json.marshal (some (normalize fs))
  unfolding canonical_content canonical_decoded
  canonical_content-object a rest fs d e = rw d (rw e refl)

  pub semantic_content_equal-Agree :
      (a b : Text) → (semantic_content_equal json a b ≡ true) ↔ Agree a b
  unfolding semantic_content_equal
  semantic_content_equal-Agree a b = (
    λ h. elim (Bool-cases (a == b)) [
      | inl y ↦ inl ((text_eq_iff a b).0 y)
      | inr n ↦ inr ((same_canonical_iff _ _).0 (ground (arith, h, n)))
    ],
    λ h. elim h [
      | inl e ↦ rw ((text_eq_iff a b).1 e)
      | inr q ↦ let s = (same_canonical_iff _ _).1 q in ground (arith, s)
    ],
  )

-- delete(m, key)
unfoldable pub erase : Text → Fields → Fields
erase key no_field = no_field
erase key (field k v fs) = let rest = erase key fs in if k == key then rest else field k v rest

-- m[key] = v
unfoldable pub assign : Text → Json → Fields → Fields
assign key v fs = field key v (erase key fs)

drop_managed-erase :
    (key : Text) (fs : Fields)
    → is_managed key ≡ true
    → drop_managed (erase key fs) ≡ drop_managed fs
unfolding erase drop_managed
drop_managed-erase key no_field m = refl
drop_managed-erase key (field k w fs) m = elim (Bool-cases (k == key)) [
  | inl y ↦
      let managed : is_managed k ≡ true = ap is_managed ((text_eq_iff k key).0 y) ∙ m in
      rw (y, managed) (drop_managed-erase key fs m)
  | inr n ↦
      rw n
        (ap (λ rest. if is_managed k then rest else field k w rest) (drop_managed-erase key fs m))
]

-- a value whose field `key` is assigned, if it is a map
unfoldable pub assign_in : Text → Json → Json → Json
assign_in key v (object fs) = object (assign key v fs)
assign_in key v w = w

drop_managed_in-assign :
    (key : Text) (v w : Json)
    → is_managed key ≡ true
    → drop_managed_in (assign_in key v w) ≡ drop_managed_in w
unfolding drop_managed_in assign_in assign drop_managed
drop_managed_in-assign key v (object fs) m = ap object (rw m (drop_managed-erase key fs m))
drop_managed_in-assign key v null m = refl
drop_managed_in-assign key v (boolean b) m = refl
drop_managed_in-assign key v (number t) m = refl
drop_managed_in-assign key v (string t) m = refl
drop_managed_in-assign key v (array vs) m = refl

-- an object whose metadata has the field `key` assigned
unfoldable pub retouch : Text → Json → Fields → Fields
retouch key v no_field = no_field
retouch key v (field k w fs) =
    let rest = retouch key v fs in
    if k == metadata_field then field k (assign_in key v w) rest else field k w rest

normalize-retouch :
    (key : Text) (v : Json) (fs : Fields)
    → is_managed key ≡ true
    → normalize (retouch key v fs) ≡ normalize fs
unfolding retouch normalize
normalize-retouch key v no_field m = refl
normalize-retouch key v (field k w fs) m =
    ground (arith, drop_managed_in-assign key v w m, normalize-retouch key v fs m)

-- A change of managedFields, resourceVersion or generation under the metadata of an object, to whatever
-- value, does not make its content differ, if the canonical form of the object can be encoded.
pub semantic_content_equal-retouch :
    (json : JsonCodec) (a b rest rest' out : Text) (fs : Fields) (key : Text) (v : Json)
    → is_managed key ≡ true
    → json.decode_object a ≡ some (some fs, rest)
    → json.decode_object b ≡ some (some (retouch key v fs), rest')
    → json.at_eof rest ≡ true
    → json.at_eof rest' ≡ true
    → json.marshal (some (normalize fs)) ≡ some out
    → semantic_content_equal json a b ≡ true
semantic_content_equal-retouch json a b rest rest' out fs key v m da db ea eb h =
    (semantic_content_equal-Agree json a b).1 (
      inr (
        out,
        canonical_content-object json a rest fs da ea ∙ h,
        canonical_content-object json b rest' (retouch key v fs) db eb
            ∙ ap (λ f. json.marshal (some f)) (normalize-retouch key v fs m)
            ∙ h,
      ))

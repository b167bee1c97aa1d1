-- ===== src/Controllers/ReadDesire/SameObject.antt =====
-- The comparison of contents against a reference: the objects without what Kubernetes manages
-- (internal/controllers/readdesire/status.go).
use hyperfleet_applier.Controllers.ReadDesire.Content.{
  canonical_decoded, no_field, field, null, boolean, number, string, array, object, is_managed,
  canonical_content, normalize_map, semantic_content_equal, Fields, Json, JsonCodec, drop_managed,
  drop_managed_in, normalize,
}
use hyperfleet_applier.Controllers.ReadDesire.Same.{semantic_content_equal-Agree, erase}
use hyperfleet_applier.Base.{
  if◌then◌else◌, ◌↔◌, ◌≡◌, ◌⊎◌, inl, inr, refl, sym, ◌∙◌, ap, ap₂, Bool, true, false, Bool-cases,
  Option, none, some, ◌==◌,
}
use hyperfleet_applier.Base.Text.{Text, text_Eq, codes}

-- a field, if there is one, with its value changed
unfoldable pub at_field : Text → (Json → Json) → Fields → Fields
at_field key f no_field = no_field
at_field key f (field k v fs) =
    let rest = at_field key f fs in if k == key then field k (f v) rest else field k v rest

-- a map without three of its keys; another value is left as it is
unfoldable pub unmanaged : Json → Json
unmanaged (object fs) = object (
    erase (codes "generation") (erase (codes "resourceVersion") (erase (codes "managedFields") fs)))
unmanaged v = v

-- The object that is written in a content, without metadata.managedFields, metadata.resourceVersion and
-- metadata.generation; `none` for the content null.
abbrev pub stripped : Option Fields → Option Fields
stripped none = none
stripped (some fs) = some (at_field (codes "metadata") unmanaged fs)

drop_managed_lem :
    (fs : Fields)
    → drop_managed fs
      ≡ erase
          (codes "generation")
          (erase (codes "resourceVersion") (erase (codes "managedFields") fs))
unfolding drop_managed erase is_managed
drop_managed_lem no_field = refl
drop_managed_lem (field k v fs) =
    let ih = drop_managed_lem fs in
    elim (Bool-cases (k == codes "managedFields")) [
      | inl a ↦ rw a ih
      | inr a ↦ elim (Bool-cases (k == codes "resourceVersion")) [
        | inl b ↦ rw (a, b) ih
        | inr b ↦ elim (Bool-cases (k == codes "generation")) [
          | inl d ↦ rw (a, b, d) ih
          | inr d ↦ rw (a, b, d) (ap (λ rest. field k v rest) ih)
        ]
      ]
    ]

drop_managed_in_lem : (v : Json) → drop_managed_in v ≡ unmanaged v
unfolding drop_managed_in unmanaged
drop_managed_in_lem (object fs) = ap object (drop_managed_lem fs)
drop_managed_in_lem null = refl
drop_managed_in_lem (boolean b) = refl
drop_managed_in_lem (number t) = refl
drop_managed_in_lem (string t) = refl
drop_managed_in_lem (array vs) = refl

normalize_lem : (fs : Fields) → normalize fs ≡ at_field (codes "metadata") unmanaged fs
unfolding normalize at_field
normalize_lem no_field = refl
normalize_lem (field k v fs) =
    let ih = normalize_lem fs in
    elim (Bool-cases (k == codes "metadata")) [
      | inl a ↦ rw a (ap₂ (λ w rest. field k w rest) (drop_managed_in_lem v) ih)
      | inr a ↦ rw a (ap (λ rest. field k v rest) ih)
    ]

normalize_map_lem : (o : Option Fields) → normalize_map o ≡ stripped o
normalize_map_lem none = refl
normalize_map_lem (some fs) = ap some (normalize_lem fs)

whole :
    (b : Bool) (x : Option Text) {out : Text}
    → (if b then x else none) ≡ some out
    → (b ≡ true) × (x ≡ some out)
whole true x h = (refl, h)
whole false x h = cc

module _ (json : JsonCodec) where
  -- The content is one object, or null, and nothing after it; and `out` is what is encoded of it.
  abbrev pub IsEncoded : Text → Text → Type 0
  IsEncoded content out =
      (o : Option Fields) × (rest : Text) × (json.decode_object content ≡ some (o, rest))
      × (json.at_eof rest ≡ true)
      × (json.marshal (stripped o) ≡ some out)

  -- The same text, or objects that are encoded to the same text once they are stripped.
  abbrev pub IsSame : Text → Text → Type 0
  IsSame a b = (a ≡ b) ⊎ ((out : Text) × IsEncoded a out × IsEncoded b out)

  canonical_decoded_iff :
      (x : Option (Option Fields × Text)) (out : Text)
      → (canonical_decoded json x ≡ some out) ↔ (
          (o : Option Fields) × (rest : Text) × (x ≡ some (o, rest))
          × (json.at_eof rest ≡ true)
          × (json.marshal (stripped o) ≡ some out))
  unfolding canonical_decoded
  canonical_decoded_iff none out = (λ h. cc, λ (o, rest, h, y, m). cc)
  canonical_decoded_iff (some (o, rest)) out = (
    λ h.
        let e = normalize_map_lem o in
        let (y, m) : (json.at_eof rest ≡ true) × (json.marshal (normalize_map o) ≡ some out) =
          whole (json.at_eof rest) (json.marshal (normalize_map o)) h in
        (o, rest, refl, y, ap json.marshal (sym e) ∙ m),
    λ (o', rest', e, y, m).
        let same : rest ≡ rest' = cc e in
        let same_o : o ≡ o' = cc e in
        rw (ap json.at_eof same ∙ y)
          (ap json.marshal (normalize_map_lem o ∙ ap stripped same_o) ∙ m),
  )

  canonical_content_iff : (a out : Text) → (canonical_content json a ≡ some out) ↔ IsEncoded a out
  unfolding canonical_content
  canonical_content_iff a out = canonical_decoded_iff (json.decode_object a) out

  -- Two contents are equal to the controller exactly if they are the same text, or if each is one object
  -- with nothing after it and the two encode to the same text once metadata.managedFields,
  -- metadata.resourceVersion and metadata.generation are erased.
  pub semantic_content_equal_iff :
      (a b : Text) → (semantic_content_equal json a b ≡ true) ↔ IsSame a b
  semantic_content_equal_iff a b = (
    λ h. elim ((semantic_content_equal-Agree json a b).0 h) [
      | inl e ↦ inl e
      | inr (out, x, y) ↦
          inr (out, (canonical_content_iff a out).0 x, (canonical_content_iff b out).0 y)
    ],
    λ h. (semantic_content_equal-Agree json a b).1 (elim h [
      | inl e ↦ inl e
      | inr (out, x, y) ↦
          inr (out, (canonical_content_iff a out).1 x, (canonical_content_iff b out).1 y)
    ]),
  )

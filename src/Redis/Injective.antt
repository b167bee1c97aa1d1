-- ===== src/Redis/Injective.antt =====
-- Two identities have two keys, so no desire overwrites another one.
use mathlib.Core.List.{append_assoc}
use hyperfleet_applier.Base.{ℕ, ◌≡◌, ◌≢◌, refl, sym, ◌∙◌, [], ◌∷◌, ◌++◌}
use hyperfleet_applier.Base.Text.{Text}
use hyperfleet_applier.Desire.Types.{Identity}
use hyperfleet_applier.Redis.Key.{key_prefix, redis_key}

-- the byte does not occur
abbrev pub Free : ℕ → Text → Type 0
Free c [] = Unit
Free c (x ∷ s) = (x ≢ c) × Free c s

-- What url.PathEscape documents: it can be undone, and "/" and "}" are escaped.
pub record IsPathEscape (path_escape : Text → Text) : Type 0 where
  pub injective : (s t : Text) → path_escape s ≡ path_escape t → s ≡ t
  pub no_slash : (s : Text) → Free b'/' (path_escape s)
  pub no_brace : (s : Text) → Free b'}' (path_escape s)

-- Two texts that are cut at the first occurrence of a byte.
split_unique :
    (c : ℕ) (a b s t : Text) → Free c a → Free c b → a ++ c ∷ s ≡ b ++ c ∷ t → (a ≡ b) × (s ≡ t)
split_unique c [] [] s t f g h = (refl, cc)
split_unique c [] (y ∷ b) s t f g h = absurd (g.0 (cc))
split_unique c (x ∷ a) [] s t f g h = absurd (f.0 (cc))
split_unique c (x ∷ a) (y ∷ b) s t f g h =
    let tails : (x ≡ y) × (a ++ c ∷ s ≡ b ++ c ∷ t) = (cc, cc) in
    let (e, k) = split_unique c a b s t f.1 g.1 tails.1 in (cc, k)

same_fields :
    (a b : Identity)
    → a.management_cluster ≡ b.management_cluster
    → a.type ≡ b.type
    → a.group ≡ b.group
    → a.resource ≡ b.resource
    → a.namespace ≡ b.namespace
    → a.name ≡ b.name
    → a ≡ b
same_fields a b h₁ h₂ h₃ h₄ h₅ h₆ = cc

module _ (path_escape : Text → Text) where
  -- a key behind its prefix
  parts : Identity → Text
  parts id =
      path_escape id.management_cluster
      ++ b'/'
        ∷ (path_escape id.group
            ++ b'/'
              ∷ (path_escape id.resource
                  ++ b'/'
                    ∷ (path_escape id.namespace
                        ++ b'/' ∷ (path_escape id.name ++ b'}' ∷ b'/' ∷ id.type))))

  redis_key-parts : (id : Identity) → redis_key path_escape id ≡ key_prefix ++ parts id
  unfolding redis_key parts
  redis_key-parts id = simp append_assoc

  parts_injective : IsPathEscape path_escape → (a b : Identity) → parts a ≡ parts b → a ≡ b
  unfolding parts
  parts_injective esc a b h =
      let (e₁, h₁) =
        split_unique _ _ _ _ _ (esc.no_slash a.management_cluster)
          (esc.no_slash b.management_cluster) h in
      let (e₂, h₂) = split_unique _ _ _ _ _ (esc.no_slash a.group) (esc.no_slash b.group) h₁ in
      let (e₃, h₃) =
        split_unique _ _ _ _ _ (esc.no_slash a.resource) (esc.no_slash b.resource) h₂ in
      let (e₄, h₄) =
        split_unique _ _ _ _ _ (esc.no_slash a.namespace) (esc.no_slash b.namespace) h₃ in
      let (e₅, h₅) = split_unique _ _ _ _ _ (esc.no_brace a.name) (esc.no_brace b.name) h₄ in
      same_fields a b (esc.injective _ _ e₁) (cc h₅) (esc.injective _ _ e₂) (esc.injective _ _ e₃)
        (esc.injective _ _ e₄) (esc.injective _ _ e₅)

  -- Two identities with one key are equal, if the escaping can be undone and hides "/" and "}".
  pub redis_key_injective :
      IsPathEscape path_escape
      → (a b : Identity) → redis_key path_escape a ≡ redis_key path_escape b
      → a ≡ b
  redis_key_injective esc a b h =
      let cut : key_prefix ++ parts a ≡ key_prefix ++ parts b =
        sym (redis_key-parts a) ∙ h ∙ redis_key-parts b in
      parts_injective esc a b (cc cut)

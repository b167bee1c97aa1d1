-- ===== src/Base/Dict.antt =====
-- A Go map, as an association list with at most one entry for each key. The order of the entries
-- is the order in which a `range` over the map happens to visit them.
use mathlib.Core.Bool.{false, Bool}
use mathlib.Core.List.{List, [], ◌∷◌}
use mathlib.Core.Path.{◌≡◌, refl, sym, ◌∙◌, ap, subst}
use mathlib.Core.Logic.{◌≢◌, ◌⊎◌, inl, inr}
use mathlib.Core.Option.{Option, none, some}
use native.Mathlib.Omega.{arith}
use hyperfleet_applier.Base.Tests.{if◌then◌else◌, Bool-cases, Eq, ◌==◌}

abbrev pub Dict {ℓ κ} : Type ℓ → Type κ → Type (ℓ ⊔ κ)
Dict K V = List (K × V)

none≢some {ℓ} : {A : Type ℓ} {a : A} → ◌≡◌ {A = Option A} none (some a) → ⊥
none≢some h = cc

module _ {ℓ κ} {K : Type ℓ} {V : Type κ} ⦃e : Eq K⦄ where
  -- v, ok := m[k]
  unfoldable pub lookup : K → Dict K V → Option V
  lookup k [] = none
  lookup k ((j, v) ∷ rest) = if j == k then some v else lookup k rest

  -- delete(m, k)
  unfoldable pub remove : K → Dict K V → Dict K V
  remove k [] = []
  remove k ((j, v) ∷ m) = let rest = remove k m in if j == k then rest else (j, v) ∷ rest

  -- m[k] = v
  unfoldable pub insert : K → V → Dict K V → Dict K V
  unfolding remove
  insert k v m = (k, v) ∷ remove k m

  -- the entries whose key passes a test are deleted while the map is ranged over
  unfoldable pub remove_if : (K → Bool) → Dict K V → Dict K V
  remove_if p [] = []
  remove_if p ((j, v) ∷ m) = let rest = remove_if p m in if p j then rest else (j, v) ∷ rest

  pub lookup-remove :
      (k j : K) (m : Dict K V) → lookup j (remove k m) ≡ (if k == j then none else lookup j m)
  unfolding lookup remove
  lookup-remove k j [] = ground arith
  lookup-remove k j ((i, v) ∷ m) =
      ground (arith, lookup-remove k j m, e.test_iff i k, e.test_iff i j, e.test_iff k j)

  pub lookup-insert :
      (k i : K) (v : V) (dict : Dict K V)
      → lookup i (insert k v dict) ≡ (if k == i then some v else lookup i dict)
  unfolding lookup insert
  lookup-insert k i v dict = ground (arith, lookup-remove k i dict)

  pub lookup_head : (k : K) (v : V) (m : Dict K V) → lookup k ((k, v) ∷ m) ≡ some v
  unfolding lookup
  lookup_head k v m = ground (arith, e.test_iff k k)

  pub lookup_skip :
      (k j : K) (v : V) (m : Dict K V) → (k == j) ≡ false → lookup j ((k, v) ∷ m) ≡ lookup j m
  unfolding lookup
  lookup_skip k j v m n = rw n

  pub lookup-insert_self : (k : K) (v : V) (m : Dict K V) → lookup k (insert k v m) ≡ some v
  lookup-insert_self k v m = ground (arith, lookup-insert k k v m, e.test_iff k k)

  pub lookup-insert_ne :
      (k j : K) (v : V) (m : Dict K V) → k ≢ j → lookup j (insert k v m) ≡ lookup j m
  lookup-insert_ne k j v m n = ground (arith, lookup-insert k j v m, e.test_iff k j)

  pub lookup-remove_self : (k : K) (m : Dict K V) → lookup k (remove k m) ≡ none
  lookup-remove_self k m = ground (arith, lookup-remove k k m, e.test_iff k k)

  pub lookup-remove_ne : (k j : K) (m : Dict K V) → k ≢ j → lookup j (remove k m) ≡ lookup j m
  lookup-remove_ne k j m n = ground (arith, lookup-remove k j m, e.test_iff k j)

  -- A value that is found after a write was there before, or is the one written.
  pub lookup-insert_cases :
      (k j : K) (v w : V) (m : Dict K V)
      → lookup j (insert k v m) ≡ some w
      → ((k ≡ j) × (v ≡ w)) ⊎ (lookup j m ≡ some w)
  lookup-insert_cases k j v w m h = elim (Bool-cases (k == j)) [
    | inl p ↦ inl ((e.test_iff k j).0 p, ground (arith, lookup-insert k j v m))
    | inr p ↦ inr (ground (arith, lookup-insert k j v m))
  ]

  -- A value that is found after a deletion was there before, under another key.
  pub lookup-remove-some :
      (k j : K) (v : V) (m : Dict K V)
      → lookup j (remove k m) ≡ some v
      → (k ≢ j) × (lookup j m ≡ some v)
  lookup-remove-some k j v m h = (
    λ same. ground (arith, h, lookup-remove k j m, (e.test_iff k j).1 same),
    ground (arith, h, lookup-remove k j m),
  )

  pub lookup-remove_if :
      (p : K → Bool) (j : K) (m : Dict K V)
      → lookup j (remove_if p m) ≡ (if p j then none else lookup j m)
  unfolding lookup remove_if
  lookup-remove_if p j [] = ground arith
  lookup-remove_if p j ((i, v) ∷ m) =
      ground (arith, lookup-remove_if p j m, e.test_iff i j, λ (h : i ≡ j). ap p h)

  pub lookup-empty : (k : K) → lookup k [] ≡ none
  unfolding lookup
  lookup-empty k = refl

module _ {ℓ κ} {K : Type ℓ} {V : Type κ} ⦃e : Eq K⦄ where
  -- no key has two entries
  abbrev pub IsUnique : Dict K V → Type κ
  IsUnique [] = Unit
  IsUnique ((k, v) ∷ m) = (lookup k m ≡ none) × IsUnique m

  pub remove-IsUnique : (k : K) (m : Dict K V) → IsUnique m → IsUnique (remove k m)
  unfolding remove
  remove-IsUnique k [] u = tt
  remove-IsUnique k ((j, v) ∷ m) u =
      let ih = remove-IsUnique k m u.1 in
      let fresh : lookup j (remove k m) ≡ none = ground (arith, lookup-remove k j m, u.0) in
      elim (Bool-cases (j == k)) [ inl y ↦ rw y ih | inr n ↦ rw n (fresh, ih) ]

  pub insert-IsUnique : (k : K) (v : V) (m : Dict K V) → IsUnique m → IsUnique (insert k v m)
  unfolding insert
  insert-IsUnique k v m u = (lookup-remove_self k m, remove-IsUnique k m u)

  pub remove_if-IsUnique : (p : K → Bool) (m : Dict K V) → IsUnique m → IsUnique (remove_if p m)
  unfolding remove_if
  remove_if-IsUnique p [] u = tt
  remove_if-IsUnique p ((j, v) ∷ m) u =
      let ih = remove_if-IsUnique p m u.1 in
      let fresh : lookup j (remove_if p m) ≡ none = ground (arith, lookup-remove_if p j m, u.0) in
      elim (Bool-cases (p j)) [ inl y ↦ rw y ih | inr n ↦ rw n (fresh, ih) ]

  -- An entry behind another one is not hidden by it.
  pub lookup-behind :
      (j k : K) (w v : V) (m : Dict K V)
      → lookup j m ≡ none
      → lookup k m ≡ some v
      → lookup k ((j, w) ∷ m) ≡ some v
  unfolding lookup
  lookup-behind j k w v m n h = elim (Bool-cases (j == k)) [
    | inl y ↦ absurd (none≢some (sym (subst (λ i. lookup i m ≡ none) ((e.test_iff j k).0 y) n) ∙ h))
    | inr o ↦ rw o h
  ]

pub ruleset dict_laws = (lookup-empty, lookup-remove, lookup-insert, lookup-remove_if)

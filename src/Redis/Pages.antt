-- ===== src/Redis/Pages.antt =====
-- What scanKeys and the batches of MGET come to (pkg/desire/store/redis/redis.go).
use hyperfleet_applier.Redis.Scan.{
  paged, scan_from, scan_keys, scanned, Scanned, add_key, scan_count, Keys, Scanner, add_keys,
  add_unseen,
}
use hyperfleet_applier.Base.{
  ◌≡◌, refl, sym, ◌∙◌, ap, inl, inr, subst, ℕ, zero, suc, Bool, true, false, ◌||◌, Option, some,
  none, List, [], ◌∷◌, ◌++◌, ◌==◌, eqb, Bool-cases, arith,
}
use hyperfleet_applier.Base.Text.{Text, text_Eq, text_eq, text_eq_iff}
use hyperfleet_applier.Base.Result.{Result, ok, err}
use hyperfleet_applier.Base.Dict.{lookup, lookup-insert, lookup-empty}
use hyperfleet_applier.Desire.Validate.{Error}

abbrev pub holds : Text → List Text → Bool
holds j [] = false
holds j (k ∷ ks) = k == j || holds j ks

abbrev pub IsDistinct : List Text → Type 0
IsDistinct [] = Unit
IsDistinct (k ∷ ks) = (holds k ks ≡ false) × IsDistinct ks

holds-snoc : (j k : Text) (ks : List Text) → holds j (ks ++ k ∷ []) ≡ (holds j ks || k == j)
holds-snoc j k [] = ground (arith)
holds-snoc j k (x ∷ ks) = let ih = holds-snoc j k ks in ground (arith)

IsDistinct-snoc :
    (k : Text) (ks : List Text) → IsDistinct ks → holds k ks ≡ false → IsDistinct (ks ++ k ∷ [])
IsDistinct-snoc k [] d h = (refl, tt)
IsDistinct-snoc k (x ∷ ks) d h = (
  holds-snoc x k ks ∙ ground (arith, d.0, h, text_eq_iff x k, text_eq_iff k x),
  IsDistinct-snoc k ks d.1 (ground (arith, h)),
)

abbrev mark : Bool → Option (Unit {0})
mark true = some tt
mark false = none

-- The map has the keys of the list, and the list has each once.
abbrev IsKeyed : Keys → Type 0
IsKeyed acc = ((j : Text) → lookup j acc.0 ≡ mark (holds j acc.1)) × IsDistinct acc.1

mark-false : (b : Bool) → mark b ≡ none → b ≡ false
mark-false true h = cc
mark-false false h = refl

mark-true : (b : Bool) {u : Unit {0}} → mark b ≡ some u → b ≡ true
mark-true true h = refl
mark-true false h = cc

or_assoc : (a b c x y : Bool) → x ≡ (y || c) → y ≡ (a || b) → x ≡ (a || (b || c))
or_assoc a b c x y h k = ground (arith)

add_unseen-holds :
    (o : Option (Unit {0})) (k j : Text) (acc : Keys)
    → IsKeyed acc
    → lookup k acc.0 ≡ o
    → holds j (add_unseen o k acc).1 ≡ (holds j acc.1 || k == j)
unfolding add_unseen
add_unseen-holds none k j (seen, keys) v e = holds-snoc j k keys
add_unseen-holds (some u) k j (seen, keys) v e =
    let t = mark-true (holds k keys) (sym (v.0 k) ∙ e) in
    elim (Bool-cases (text_eq k j)) [
      | inl y ↦ let q = ap (λ x. holds x keys) (sym ((text_eq_iff k j).0 y)) ∙ t in ground (arith)
      | inr n ↦ ground (arith)
    ]

add_unseen-IsKeyed :
    (o : Option (Unit {0})) (k : Text) (acc : Keys)
    → IsKeyed acc
    → lookup k acc.0 ≡ o
    → IsKeyed (add_unseen o k acc)
unfolding add_unseen
add_unseen-IsKeyed (some u) k acc v e = v
add_unseen-IsKeyed none k (seen, keys) v e = (
  λ j. lookup-insert k j tt seen ∙ elim (Bool-cases (text_eq k j)) [
    | inl y ↦
        let q : holds j (keys ++ k ∷ []) ≡ true = holds-snoc j k keys ∙ ground (arith) in
        rw (y, q) refl
    | inr n ↦
        let q : holds j (keys ++ k ∷ []) ≡ holds j keys = holds-snoc j k keys ∙ ground (arith) in
        rw n (v.0 j ∙ ap mark (sym q))
  ],
  IsDistinct-snoc k keys v.1 (mark-false (holds k keys) (sym (v.0 k) ∙ e)),
)

add_keys-IsKeyed : (batch : List Text) (acc : Keys) → IsKeyed acc → IsKeyed (add_keys batch acc)
unfolding add_keys add_key
add_keys-IsKeyed [] acc v = v
add_keys-IsKeyed (k ∷ ks) acc v = add_keys-IsKeyed ks _ (add_unseen-IsKeyed _ k acc v refl)

add_keys-holds :
    (batch : List Text) (j : Text) (acc : Keys)
    → IsKeyed acc
    → holds j (add_keys batch acc).1 ≡ (holds j acc.1 || holds j batch)
unfolding add_keys add_key
add_keys-holds [] j acc v = ground (arith)
add_keys-holds (k ∷ ks) j acc v =
    let o = lookup k acc.0 in
    let ih = add_keys-holds ks j (add_unseen o k acc) (add_unseen-IsKeyed o k acc v refl) in
    let here = add_unseen-holds o k j acc v refl in ground (arith)

module _ {R : Type 0} (sc : Scanner R) where
  -- some reply of the loop over SCAN has the key
  abbrev later : Bool → Bool → Bool
  later true more = false
  later false more = more

  abbrev answered : Text → (ℕ → R → Bool) → Result Error (List Text × ℕ) × R → Bool
  answered j again (err e, u) = false
  answered j again (ok (batch, next), u) = holds j batch || later (eqb next 0) (again next u)

  unfoldable pub reported : Text → ℕ → Text → ℕ → R → Bool
  reported j zero pattern cursor r = false
  reported j (suc n) pattern cursor r =
      answered j (λ next u. reported j n pattern next u) (sc.scan cursor pattern scan_count r)

  -- the keys of a loop that ended, from the keys so far
  abbrev Exact : (Text → Bool) → Keys → List Text → Type 0
  Exact more acc keys = ((j : Text) → holds j keys ≡ (holds j acc.1 || more j)) × IsDistinct keys

  paged-Exact :
      (again : ℕ → Keys → R → Scanned sc) (more : Text → ℕ → R → Bool) (acc : Keys) (b : Bool)
      (next : ℕ) (r u : R) (keys : List Text)
      → IsKeyed acc
      → ((acc' : Keys) (t : R)
          → IsKeyed acc'
          → again next acc' t ≡ (some (ok keys), u)
          → Exact (λ j. more j next t) acc' keys)
      → paged sc again b next acc r ≡ (some (ok keys), u)
      → Exact (λ j. later b (more j next r)) acc keys
  unfolding paged
  paged-Exact again more acc false next r u keys v k h = k acc r v h
  paged-Exact again more acc true next r u keys v k h =
      let same : acc.1 ≡ keys = cc (ap (λ (z : Scanned sc). z.0) h) in
      (λ j. ap (λ l. holds j l) (sym same) ∙ ground (arith), subst (λ l. IsDistinct l) same v.1)

  scanned-Exact :
      (again : ℕ → Keys → R → Scanned sc) (more : Text → ℕ → R → Bool) (acc : Keys)
      (x : Result Error (List Text × ℕ)) (r u : R) (keys : List Text)
      → IsKeyed acc
      → ((next : ℕ) (acc' : Keys) (t : R)
          → IsKeyed acc'
          → again next acc' t ≡ (some (ok keys), u)
          → Exact (λ j. more j next t) acc' keys)
      → scanned sc again acc (x, r) ≡ (some (ok keys), u)
      → Exact (λ j. answered j (more j) (x, r)) acc keys
  unfolding scanned
  scanned-Exact again more acc (err e) r u keys v k h = cc (ap (λ (y : Scanned sc). y.0) h)
  scanned-Exact again more acc (ok (batch, next)) r u keys v k h =
      let (exact, distinct) =
        paged-Exact again more (add_keys batch acc) (eqb next 0) next r u keys
          (add_keys-IsKeyed batch acc v) (k next) h in
      (
        λ j.
            let e = exact j in let here = add_keys-holds batch j acc v in or_assoc _ _ _ _ _ e here,
        distinct,
      )

  scan_from-Exact :
      (n : ℕ) (pattern : Text) (cursor : ℕ) (acc : Keys) (r u : R) (keys : List Text)
      → IsKeyed acc
      → scan_from sc n pattern cursor acc r ≡ (some (ok keys), u)
      → Exact (λ j. reported j n pattern cursor r) acc keys
  unfolding scan_from reported
  scan_from-Exact zero pattern cursor acc r u keys v h = cc (ap (λ (y : Scanned sc). y.0) h)
  scan_from-Exact (suc n) pattern cursor acc r u keys v h =
      scanned-Exact _ (λ j next t. reported j n pattern next t) acc
        (sc.scan cursor pattern scan_count r).0 _ u keys v
        (λ next acc' t w q. scan_from-Exact n pattern next acc' t u keys w q) h

  -- When the loop over SCAN has ended, it gives exactly the keys that some reply had, each once, however
  -- often the server repeats a key.
  pub scan_keys-Exact :
      (n : ℕ) (pattern : Text) (r u : R) (keys : List Text)
      → scan_keys sc n pattern r ≡ (some (ok keys), u)
      → ((j : Text) → holds j keys ≡ reported j n pattern 0 r) × IsDistinct keys
  unfolding scan_keys
  scan_keys-Exact n pattern r u keys h =
      scan_from-Exact n pattern 0 ([], []) r u keys (λ j. lookup-empty j, tt) h

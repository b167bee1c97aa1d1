-- ===== src/Redis/Batches.antt =====
-- The end of the loop over SCAN, and the batches of MGET (pkg/desire/store/redis/redis.go).
use hyperfleet_applier.Base.{append_assoc}
use hyperfleet_applier.Redis.Scan.{
  Keys, scan_from, scan_keys, Scanned, mget_batch, paged, scan_count, scanned, Scanner, batches,
  batches_from,
}
use hyperfleet_applier.Base.{
  ◌≡◌, refl, ◌∙◌, ap, ℕ, zero, suc, ◌+◌, ◌<◌, ◌≤◌, Bool, true, false, some, List, [], ◌∷◌, ◌++◌,
  eqb, length, arith,
}
use hyperfleet_applier.Base.Text.{Text, text_Eq}
use hyperfleet_applier.Base.Result.{Result, ok, err}
use hyperfleet_applier.Desire.Validate.{Error}

module _ {R : Type 0} (sc : Scanner R) (pattern : Text) (left : ℕ → R → ℕ) where
  -- the loop has ended
  abbrev pub Ended : Scanned sc → Type 0
  Ended y = (x : Result Error (List Text)) × (y.0 ≡ some x)

  paged-Ended :
      (again : ℕ → Keys → R → Scanned sc) (b : Bool) (next : ℕ) (acc : Keys) (r : R)
      → (b ≡ false → Ended (again next acc r))
      → Ended (paged sc again b next acc r)
  unfolding paged
  paged-Ended again true next acc r k = (_, refl)
  paged-Ended again false next acc r k = k refl

  scanned-Ended :
      (again : ℕ → Keys → R → Scanned sc) (acc : Keys) (x : Result Error (List Text × ℕ)) (u : R)
      → ((batch : List Text) (next : ℕ) (acc' : Keys)
          → x ≡ ok (batch, next)
          → eqb next 0 ≡ false
          → Ended (again next acc' u))
      → Ended (scanned sc again acc (x, u))
  unfolding scanned
  scanned-Ended again acc (err e) u k = (_, refl)
  scanned-Ended again acc (ok (batch, next)) u k =
      paged-Ended again (eqb next 0) next _ u (k batch next _ refl)

  module _
      (law : (cursor next : ℕ) (batch : List Text) (r : R)
        → (sc.scan cursor pattern scan_count r).0 ≡ ok (batch, next)
        → eqb next 0 ≡ false
        → left next (sc.scan cursor pattern scan_count r).1 < left cursor r) where
    scan_from-Ended :
        (n cursor : ℕ) (acc : Keys) (r : R)
        → left cursor r < n
        → Ended (scan_from sc n pattern cursor acc r)
    unfolding scan_from
    scan_from-Ended zero cursor acc r h = absurd (omega arith)
    scan_from-Ended (suc n) cursor acc r h =
        scanned-Ended _ acc (sc.scan cursor pattern scan_count r).0 _ λ batch next acc' e q.
          let less = law cursor next batch r e q in scan_from-Ended n next acc' _ (omega arith)

    -- If every SCAN that does not end the iteration leaves less of it, scanKeys ends with its keys or an
    -- error, within one round more than there was left at the start.
    pub scan_keys-Ended : (r : R) (n : ℕ) → left 0 r < n → Ended (scan_keys sc n pattern r)
    unfolding scan_keys
    scan_keys-Ended r n h = scan_from-Ended n 0 ([], []) r h

abbrev pub concat : List (List Text) → List Text
concat [] = []
concat (b ∷ bs) = b ++ concat bs

abbrev pub IsWithin : ℕ → List (List Text) → Type 0
IsWithin n [] = Unit
IsWithin n (b ∷ bs) = (length b ≤ n) × IsWithin n bs

length-snoc : (xs : List Text) (x : Text) → length (xs ++ x ∷ []) ≡ length xs + 1
length-snoc [] x = refl
length-snoc (y ∷ xs) x = let ih = length-snoc xs x in omega arith

concat-batches_from :
    (size room : ℕ) (batch keys : List Text)
    → concat (batches_from size room batch keys) ≡ batch ++ keys
unfolding batches_from
concat-batches_from size room batch [] = refl
concat-batches_from size zero batch (k ∷ ks) =
    ap (λ l. batch ++ l) (concat-batches_from size size (k ∷ []) ks)
concat-batches_from size (suc room) batch (k ∷ ks) =
    concat-batches_from size room (batch ++ k ∷ []) ks ∙ append_assoc batch (k ∷ []) ks

batches_from-IsWithin :
    (size room : ℕ) (batch keys : List Text)
    → length batch + room ≤ size + 1
    → IsWithin (size + 1) (batches_from size room batch keys)
unfolding batches_from
batches_from-IsWithin size room batch [] h = (omega arith, tt)
batches_from-IsWithin size zero batch (k ∷ ks) h =
    (omega arith, batches_from-IsWithin size size (k ∷ []) ks (omega arith))
batches_from-IsWithin size (suc room) batch (k ∷ ks) h =
    let e = length-snoc batch k in
    batches_from-IsWithin size room (batch ++ k ∷ []) ks (omega arith)

-- The batches of MGET are the keys, cut in order, with at most a thousand keys in each.
pub batches-IsWithin :
    (keys : List Text) → (concat (batches keys) ≡ keys) × IsWithin mget_batch (batches keys)
unfolding batches
batches-IsWithin [] = (refl, tt)
batches-IsWithin (k ∷ ks) = (
  concat-batches_from 999 999 (k ∷ []) ks,
  batches_from-IsWithin 999 999 (k ∷ []) ks (omega arith),
)

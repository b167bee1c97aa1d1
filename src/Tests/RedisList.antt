-- ===== src/Tests/RedisList.antt =====
-- Runs of the lists of the Redis store. The server holds one record, and SCAN reports its key twice.
use hyperfleet_applier.Base.{
  sym, subst, eqb, ◌≡◌, refl, false, ℕ, zero, suc, some, List, [], ◌∷◌, ◌++◌, map, ◌==◌,
  if◌then◌else◌, ◌<◌, arith,
}
use hyperfleet_applier.Redis.Batches.{batches-IsWithin, IsWithin, scan_keys-Ended, Ended, concat}
use hyperfleet_applier.Redis.Pages.{scan_keys-Exact, IsDistinct, reported, holds}
use hyperfleet_applier.Redis.Scan.{
  mget_batch, batches, add_unseen, add_key, add_keys, paged, scanned, scan_from, Scanner, Value,
  scan_keys, text, absent,
}
use hyperfleet_applier.Redis.ListRefine.{list_desires_refines, cluster_keys}
use hyperfleet_applier.Redis.Key.{join_slash, mc_scan_prefix, redis_key}
use hyperfleet_applier.Desire.Validate.{Error}
use hyperfleet_applier.Redis.Client.{Codec}
use hyperfleet_applier.Base.Text.{Text, codes, text_eq, text_Eq}
use hyperfleet_applier.Base.Result.{Result, ok}
use hyperfleet_applier.Base.Dict.{lookup, insert, remove}
use hyperfleet_applier.Redis.Listing
use hyperfleet_applier.Memory.Query
use hyperfleet_applier.Tests.Data.{apply_id, record_1, store_1}

abbrev mc : Text
mc = codes "mc"

abbrev raw : Text → Text
raw s = s

abbrev key_1 : Text
key_1 = redis_key raw apply_id

unfoldable content : Text → Value
content k = if k == key_1 then text (codes "r") else absent

-- The state counts the rounds of SCAN that are left; the cursor is the rest of them.
unfoldable scan_page : ℕ → Result Error (List Text × ℕ) × ℕ
scan_page zero = (ok (key_1 ∷ [], 0), zero)
scan_page (suc n) = (ok (key_1 ∷ [], 1), n)

abbrev scanner : Scanner ℕ
scanner = record { scan = λ _ _ _ r. scan_page r; mget = λ ks r. (ok (map content ks), r) }

abbrev codec : Codec
codec = record { marshal = λ _. some (codes "r"); unmarshal = λ _. some record_1 }

abbrev pattern_1 : Text
pattern_1 = mc_scan_prefix raw mc ++ codes "*"

scan_two :
    scan_keys scanner 2 pattern_1 1
    ≡ (some (ok (cluster_keys codec raw mc content store_1.items)), 0)
unfolding scan_keys scan_from scanned paged add_keys add_key add_unseen lookup insert remove text_eq
    redis_key join_slash scan_page cluster_keys
scan_two = refl

list_desires_refines_example :
    (hyperfleet_applier.Redis.Listing.list_apply_desires scanner codec raw 2 mc 1
      ≡ (some (hyperfleet_applier.Memory.Query.list_apply_desires mc store_1).0, 0))
    × (hyperfleet_applier.Redis.Listing.list_delete_desires scanner codec raw 2 mc 1
        ≡ (some (hyperfleet_applier.Memory.Query.list_delete_desires mc store_1).0, 0))
    × (hyperfleet_applier.Redis.Listing.list_read_desires scanner codec raw 2 mc 1
        ≡ (some (hyperfleet_applier.Memory.Query.list_read_desires mc store_1).0, 0))
unfolding content redis_key join_slash text_eq
list_desires_refines_example =
    list_desires_refines scanner codec raw 2 mc content store_1 1 0 (λ ks. refl)
      ((codes "r", refl, refl, refl), tt) scan_two

scan_keys-Exact_example :
    ((j : Text)
      → holds j (cluster_keys codec raw mc content store_1.items)
        ≡ reported scanner j 2 pattern_1 0 1)
    × IsDistinct (cluster_keys codec raw mc content store_1.items)
scan_keys-Exact_example =
    scan_keys-Exact scanner 2 pattern_1 1 0 (cluster_keys codec raw mc content store_1.items)
      scan_two

page_less :
    (r next : ℕ) (batch : List Text)
    → (scan_page r).0 ≡ ok (batch, next)
    → eqb next 0 ≡ false
    → (scan_page r).1 < r
unfolding scan_page
page_less zero next batch h q =
    let e : 0 ≡ next = cc h in let z = subst (λ x. eqb x 0 ≡ false) (sym e) q in cc
page_less (suc n) next batch h q = omega arith

scan_keys-Ended_example : Ended scanner pattern_1 (λ _ r. r) (scan_keys scanner 2 pattern_1 1)
scan_keys-Ended_example =
    scan_keys-Ended scanner pattern_1 (λ _ r. r)
      (λ cursor next batch r h q. page_less r next batch h q) 1 2 (omega arith)

batches-IsWithin_example :
    (concat (batches (key_1 ∷ mc ∷ [])) ≡ key_1 ∷ mc ∷ [])
    × IsWithin mget_batch (batches (key_1 ∷ mc ∷ []))
batches-IsWithin_example = batches-IsWithin (key_1 ∷ mc ∷ [])

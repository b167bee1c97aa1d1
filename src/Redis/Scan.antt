-- ===== src/Redis/Scan.antt =====
-- loadClusterRecords and scanKeys of pkg/desire/store/redis/redis.go. SCAN and MGET are parameters over
-- the state of the server, which every call may find changed. The loop over SCAN ends when the server
-- says so: it is on fuel, and gives none when that runs out.
use hyperfleet_applier.Base.{◌-◌}
use hyperfleet_applier.Base.Dict.{insert, Dict, lookup}
use hyperfleet_applier.Redis.Key.{mc_scan_prefix}
use hyperfleet_applier.Memory.Record.{ResourceRecord}
use hyperfleet_applier.Redis.Client.{Codec}
use hyperfleet_applier.Base.{
  ℕ, zero, suc, Bool, true, false, Option, none, some, List, [], ◌∷◌, ◌++◌, eqb,
}
use hyperfleet_applier.Base.Text.{Text, text_Eq, codes}
use hyperfleet_applier.Base.Result.{Result, ok, err}
use hyperfleet_applier.Base.Exec.{Exec, ◌>>=◌, pure}
use hyperfleet_applier.Desire.Validate.{Error, client}

-- what MGET gives for a key: nil, a string, or a value of another type
pub data Value : Type 0 where
  absent unexpected : Value
  text : Text → Value

pub record Scanner (R : Type 0) : Type 0 where
  -- SCAN from a cursor, with a pattern and a COUNT: the keys and the next cursor
  pub scan : ℕ → Text → ℕ → R → Result Error (List Text × ℕ) × R
  pub mget : List Text → R → Result Error (List Value) × R

abbrev pub scan_count : ℕ
scan_count = 100

abbrev pub mget_batch : ℕ
mget_batch = 1000

pub record ClusterRecord : Type 0 where
  pub record_of : ResourceRecord
  pub redis_key_of : Text

-- the keys so far, and those in the map `seen`
abbrev pub Keys : Type 0
Keys = Dict Text (Unit {0}) × List Text

-- the loop over a reply of SCAN, by whether the key is in `seen`
unfoldable pub add_unseen : Option (Unit {0}) → Text → Keys → Keys
add_unseen (some _) k acc = acc
add_unseen none k (seen, keys) = (insert k tt seen, keys ++ k ∷ [])

unfoldable pub add_key : Text → Keys → Keys
unfolding add_unseen
add_key k (seen, keys) = add_unseen (lookup k seen) k (seen, keys)

unfoldable pub add_keys : List Text → Keys → Keys
unfolding add_key
add_keys [] acc = acc
add_keys (k ∷ ks) acc = add_keys ks (add_key k acc)

-- keys[start:end] for each start: the batch so far, and the room that is left in it
unfoldable pub batches_from : ℕ → ℕ → List Text → List Text → List (List Text)
batches_from size room batch [] = batch ∷ []
batches_from size zero batch (k ∷ ks) = batch ∷ batches_from size size (k ∷ []) ks
batches_from size (suc room) batch (k ∷ ks) = batches_from size room (batch ++ k ∷ []) ks

unfoldable pub batches : List Text → List (List Text)
unfolding batches_from
batches [] = []
batches (k ∷ ks) = batches_from (mget_batch - 1) (mget_batch - 1) (k ∷ []) ks

-- copy(values[start:end], batch), where the values are nil before
unfoldable pub copy : List Text → List Value → List Value
copy [] vs = []
copy (k ∷ ks) [] = absent ∷ copy ks []
copy (k ∷ ks) (v ∷ vs) = v ∷ copy ks vs

module _ {R : Type 0} (sc : Scanner R) where
  abbrev pub Scanned : Type 0
  Scanned = Option (Result Error (List Text)) × R

  -- `if cursor == 0 { return keys, nil }`, with the rounds that are left as `again`
  unfoldable pub paged : (ℕ → Keys → R → Scanned) → Bool → ℕ → Keys → R → Scanned
  paged again true next acc r = (some (ok acc.1), r)
  paged again false next acc r = again next acc r

  unfoldable pub scanned :
      (ℕ → Keys → R → Scanned) → Keys → Result Error (List Text × ℕ) × R → Scanned
  unfolding add_keys paged
  scanned again acc (err e, r) = (some (err e), r)
  scanned again acc (ok (batch, next), r) = paged again (eqb next 0) next (add_keys batch acc) r

  unfoldable pub scan_from : ℕ → Text → ℕ → Keys → R → Scanned
  unfolding scanned
  scan_from zero pattern cursor acc r = (none, r)
  scan_from (suc n) pattern cursor acc r =
      scanned (λ next acc' u. scan_from n pattern next acc' u) acc
        (sc.scan cursor pattern scan_count r)

  unfoldable pub scan_keys : ℕ → Text → R → Scanned
  unfolding scan_from
  scan_keys n pattern r = scan_from n pattern 0 ([], []) r

  -- the loop over the batches
  unfoldable pub mget_all : List (List Text) → Exec R Error (List Value)
  unfolding copy
  mget_all [] = pure []
  mget_all (b ∷ bs) = do batch ← sc.mget b; rest ← mget_all bs; pure (copy b batch ++ rest)

module _ (codec : Codec) where
  -- what json.Unmarshal gives for a key
  unfoldable pub unmarshaled : Text → Option ResourceRecord → Result Error (Option ClusterRecord)
  unmarshaled key none = err (client (codes "decoding record"))
  unmarshaled key (some rec) = ok (some (record { record_of = rec; redis_key_of = key }))

  -- the loop over the values
  unfoldable pub decode_value : Text → Value → Result Error (Option ClusterRecord)
  unfolding unmarshaled
  decode_value key absent = ok none
  decode_value key unexpected = err (client (codes "unexpected value type"))
  decode_value key (text bytes) = unmarshaled key (codec.unmarshal bytes)

  -- a nil value is skipped, and the first error ends the loop
  unfoldable pub decoded :
      Result Error (Option ClusterRecord)
      → Result Error (List ClusterRecord)
      → Result Error (List ClusterRecord)
  decoded (err e) rest = err e
  decoded (ok none) rest = rest
  decoded (ok (some cr)) (err e) = err e
  decoded (ok (some cr)) (ok crs) = ok (cr ∷ crs)

  unfoldable pub decode_all : List Text → List Value → Result Error (List ClusterRecord)
  unfolding decode_value decoded
  decode_all [] vs = ok []
  decode_all (k ∷ ks) [] = ok []
  decode_all (k ∷ ks) (v ∷ vs) = decoded (decode_value k v) (decode_all ks vs)

module _ {R : Type 0} (sc : Scanner R) (codec : Codec) (path_escape : Text → Text) where
  unfoldable pub values_loaded :
      List Text → Result Error (List Value) × R → Option (Result Error (List ClusterRecord)) × R
  unfolding decode_all
  values_loaded keys (err e, r) = (some (err e), r)
  values_loaded keys (ok values, r) = (some (decode_all codec keys values), r)

  unfoldable pub keys_loaded : Scanned sc → Option (Result Error (List ClusterRecord)) × R
  unfolding mget_all batches values_loaded
  keys_loaded (none, r) = (none, r)
  keys_loaded (some (err e), r) = (some (err e), r)
  keys_loaded (some (ok keys), r) = values_loaded keys (mget_all sc (batches keys) r)

  -- loadClusterRecords; with no key there is no batch and no record
  unfoldable pub load_cluster_records :
      ℕ → Text → R → Option (Result Error (List ClusterRecord)) × R
  unfolding scan_keys keys_loaded
  load_cluster_records n mc r =
      keys_loaded (scan_keys sc n (mc_scan_prefix path_escape mc ++ codes "*") r)

-- ===== src/Redis/ListRefine.antt =====
-- The lists of the Redis store against those of the in-memory store
-- (pkg/desire/store/redis/redis.go and pkg/desire/store/memory/store.go).
use hyperfleet_applier.Base.{map-append, sym}
use hyperfleet_applier.Redis.Scan.{
  unmarshaled, batches, values_loaded, keys_loaded, scan_keys, load_cluster_records, decoded,
  ClusterRecord, decode_value, decode_all, mget_all, Scanner, Value, copy, text,
}
use hyperfleet_applier.Desire.Types.{
  ReadDesire, type_read, DeleteDesire, type_delete, ApplyDesire, type_apply, Identity, DesireType,
}
use hyperfleet_applier.Memory.Record.{
  project_read_desire, project_delete_desire, project_apply_desire, Memory, ResourceRecord, Items,
}
use hyperfleet_applier.Redis.Batches.{batches-IsWithin, concat}
use hyperfleet_applier.Redis.Key.{mc_scan_prefix, redis_key}
use hyperfleet_applier.Redis.Listing.{of_type, listed}
use hyperfleet_applier.Redis.Listing
use hyperfleet_applier.Memory.Query
use hyperfleet_applier.Base.{
  if◌then◌else◌, ◌≡◌, refl, ◌∙◌, ap, inl, inr, ℕ, some, List, [], ◌∷◌, ◌++◌, ◌==◌, map, Bool-cases,
}
use hyperfleet_applier.Memory.Query.{selects, list_desires}
use hyperfleet_applier.Redis.Client.{Codec}
use hyperfleet_applier.Base.Text.{codes, Text, text_Eq, text_eq}
use hyperfleet_applier.Base.Result.{ok}
use hyperfleet_applier.Base.Exec.{bind-eq}

-- MGET answers by what each key has, and changes nothing.
abbrev pub Serves : {R : Type 0} → Scanner R → (Text → Value) → R → Type 0
Serves sc at r = (ks : List Text) → sc.mget ks r ≡ (ok (map at ks), r)

copy-map : (at : Text → Value) (ks : List Text) → copy ks (map at ks) ≡ map at ks
unfolding copy
copy-map at [] = refl
copy-map at (k ∷ ks) = ap (λ l. at k ∷ l) (copy-map at ks)

module _ {R : Type 0} (sc : Scanner R) (at : Text → Value) (r : R) (serves : Serves sc at r) where
  mget_all-Serves : (bs : List (List Text)) → mget_all sc bs r ≡ (ok (map at (concat bs)), r)
  unfolding mget_all
  mget_all-Serves [] = refl
  mget_all-Serves (b ∷ bs) =
      let v : copy b (map at b) ++ map at (concat bs) ≡ map at (b ++ concat bs) =
        ap (λ l. l ++ map at (concat bs)) (copy-map at b) ∙ sym (map-append at b (concat bs)) in
      bind-eq (sc.mget b) _ r r (map at b) (serves b)
      ∙ bind-eq (mget_all sc bs) _ r r (map at (concat bs)) (mget_all-Serves bs)
      ∙ ap (λ l. (ok l, r)) v

module _ (codec : Codec) (path_escape : Text → Text) (mc : Text) (at : Text → Value) where
  -- Each key has its record, encoded.
  abbrev pub IsStored : Items → Type 0
  IsStored [] = Unit
  IsStored ((id, rec) ∷ items) =
      ((bytes : Text) × (at (redis_key path_escape id) ≡ text bytes)
        × (codec.unmarshal bytes ≡ some rec)
        × (rec.identity ≡ id))
      × IsStored items

  -- the keys of a management cluster's records
  unfoldable pub cluster_keys : Items → List Text
  cluster_keys [] = []
  cluster_keys ((id, rec) ∷ items) =
      let rest = cluster_keys items in
      if id.management_cluster == mc then redis_key path_escape id ∷ rest else rest

  unfoldable cluster_records : Items → List ClusterRecord
  cluster_records [] = []
  cluster_records ((id, rec) ∷ items) =
      let rest = cluster_records items in
      if id.management_cluster == mc
      then record { record_of = rec; redis_key_of = redis_key path_escape id } ∷ rest
      else rest

  decode_value-text :
      (key bytes : Text) (rec : ResourceRecord)
      → codec.unmarshal bytes ≡ some rec
      → decode_value codec key (text bytes)
        ≡ ok (some (record { record_of = rec; redis_key_of = key }))
  unfolding decode_value
  decode_value-text key bytes rec h = ap (λ o. unmarshaled codec key o) h

  decode_all-IsStored :
      (items : Items)
      → IsStored items
      → decode_all codec (cluster_keys items) (map at (cluster_keys items))
        ≡ ok (cluster_records items)
  unfolding decode_all decode_value decoded cluster_keys cluster_records
  decode_all-IsStored [] h = refl
  decode_all-IsStored ((id, rec) ∷ items) ((bytes, found, decodes, same), rest) =
      let ih = decode_all-IsStored items rest in
      elim (Bool-cases (text_eq id.management_cluster mc)) [
        | inl y ↦
            let head = decode_value-text (redis_key path_escape id) bytes rec decodes in
            rw y (rw found (rw head (rw ih refl)))
        | inr o ↦ rw o ih
      ]

  of_type-IsStored :
      (D : Type 0) (project : ResourceRecord → D) (t : DesireType) (items : Items)
      → IsStored items
      → of_type project t (cluster_records items) ≡ list_desires project mc t items
  unfolding of_type cluster_records list_desires selects
  of_type-IsStored D project t [] h = refl
  of_type-IsStored D project t ((id, rec) ∷ items) ((_, _, _, same), rest) =
      let ih = of_type-IsStored D project t items rest in
      let kind : text_eq rec.identity.type t ≡ text_eq id.type t =
        ap (λ (i : Identity). text_eq i.type t) same in
      elim (Bool-cases (text_eq id.management_cluster mc)) [
        | inl y ↦ elim (Bool-cases (text_eq id.type t)) [
          | inl a ↦ rw (y, a, kind ∙ a) (ap (λ l. project rec ∷ l) ih)
          | inr b ↦ rw (y, b, kind ∙ b) ih
        ]
        | inr o ↦ rw o ih
      ]

module _ {R : Type 0} (sc : Scanner R) (codec : Codec) (path_escape : Text → Text) where
  load_cluster_records-IsStored :
      (n : ℕ) (mc : Text) (at : Text → Value) (items : Items) (r u : R)
      → Serves sc at u
      → IsStored codec path_escape mc at items
      → scan_keys sc n (mc_scan_prefix path_escape mc ++ codes "*") r
        ≡ (some (ok (cluster_keys codec path_escape mc at items)), u)
      → load_cluster_records sc codec path_escape n mc r
        ≡ (some (ok (cluster_records codec path_escape mc at items)), u)
  unfolding load_cluster_records keys_loaded values_loaded
  load_cluster_records-IsStored n mc at items r u serves stored h =
      let keys = cluster_keys codec path_escape mc at items in
      ap (λ x. keys_loaded sc codec path_escape x) h
      ∙ ap (λ x. values_loaded sc codec path_escape keys x)
          (mget_all-Serves sc at u serves (batches keys))
      ∙ ap (λ ks. values_loaded sc codec path_escape keys (ok (map at ks), u))
          (batches-IsWithin keys).0
      ∙ ap (λ x. (some x, u)) (decode_all-IsStored codec path_escape mc at items stored)

  -- If SCAN gives the keys of a management cluster's records in an in-memory store, in its order, and
  -- MGET gives for each key what decodes to its record, with the identity that the key is made of, then
  -- the three lists of the Redis store are those of the in-memory store.
  pub list_desires_refines :
      (n : ℕ) (mc : Text) (at : Text → Value) (s : Memory) (r u : R)
      → Serves sc at u
      → IsStored codec path_escape mc at s.items
      → scan_keys sc n (mc_scan_prefix path_escape mc ++ codes "*") r
        ≡ (some (ok (cluster_keys codec path_escape mc at s.items)), u)
      → (hyperfleet_applier.Redis.Listing.list_apply_desires sc codec path_escape n mc r
          ≡ (some (hyperfleet_applier.Memory.Query.list_apply_desires mc s).0, u))
        × (hyperfleet_applier.Redis.Listing.list_delete_desires sc codec path_escape n mc r
            ≡ (some (hyperfleet_applier.Memory.Query.list_delete_desires mc s).0, u))
        × (hyperfleet_applier.Redis.Listing.list_read_desires sc codec path_escape n mc r
            ≡ (some (hyperfleet_applier.Memory.Query.list_read_desires mc s).0, u))
  unfolding listed hyperfleet_applier.Redis.Listing.list_apply_desires
      hyperfleet_applier.Redis.Listing.list_delete_desires
      hyperfleet_applier.Redis.Listing.list_read_desires
      hyperfleet_applier.Memory.Query.list_apply_desires
      hyperfleet_applier.Memory.Query.list_delete_desires
      hyperfleet_applier.Memory.Query.list_read_desires
  list_desires_refines n mc at s r u serves stored h =
      let loaded = load_cluster_records-IsStored n mc at s.items r u serves stored h in
      (
        ap (λ x. listed sc codec path_escape project_apply_desire type_apply x) loaded
            ∙ ap (λ x. (some (ok x), u))
                (of_type-IsStored codec path_escape mc at ApplyDesire project_apply_desire
                  type_apply s.items stored),
        ap (λ x. listed sc codec path_escape project_delete_desire type_delete x) loaded
            ∙ ap (λ x. (some (ok x), u))
                (of_type-IsStored codec path_escape mc at DeleteDesire project_delete_desire
                  type_delete s.items stored),
        ap (λ x. listed sc codec path_escape project_read_desire type_read x) loaded
            ∙ ap (λ x. (some (ok x), u))
                (of_type-IsStored codec path_escape mc at ReadDesire project_read_desire type_read
                  s.items stored),
      )

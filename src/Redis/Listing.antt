-- ===== src/Redis/Listing.antt =====
-- ListApplyDesires, ListDeleteDesires, ListReadDesires and DeleteByPrefix of
-- pkg/desire/store/redis/redis.go.
use hyperfleet_applier.Desire.Types.{
  type_apply, type_delete, type_read, ApplyDesire, DeleteDesire, ReadDesire, DesireType,
}
use hyperfleet_applier.Memory.Record.{
  project_apply_desire, project_delete_desire, project_read_desire, ResourceRecord,
}
use hyperfleet_applier.Redis.Scan.{ClusterRecord, load_cluster_records, Scanner}
use hyperfleet_applier.Redis.Client.{Client, Codec}
use hyperfleet_applier.Base.Exec.{Exec, ◌>>◌, pure}
use hyperfleet_applier.Base.{ℕ, Option, none, some, List, [], ◌∷◌, ◌==◌, if◌then◌else◌}
use hyperfleet_applier.Base.Text.{Text, text_Eq}
use hyperfleet_applier.Base.Result.{Result, ok, err}
use hyperfleet_applier.Desire.Validate.{Error}
use hyperfleet_applier.Desire.Contract.{PrefixSelector, matches}
use hyperfleet_applier.Redis.Cas.{Stop, cas_noop, cas_delete}

-- the loop of the three list operations
unfoldable pub of_type :
    {D : Type 0} → (ResourceRecord → D) → DesireType → List ClusterRecord → List D
of_type project t [] = []
of_type project t (cr ∷ crs) =
    let rest = of_type project t crs in
    if cr.record_of.identity.type == t then project cr.record_of ∷ rest else rest

-- the loop's test under WATCH in DeleteByPrefix
unfoldable pub still_matches : PrefixSelector → Option ResourceRecord → Result Stop (Unit {0})
still_matches sel none = err cas_noop
still_matches sel (some rec) = if matches sel rec.identity then ok tt else err cas_noop

module _ {R : Type 0} (sc : Scanner R) (codec : Codec) (path_escape : Text → Text) where
  unfoldable pub listed :
      {D : Type 0}
      → (ResourceRecord → D)
      → DesireType
      → Option (Result Error (List ClusterRecord)) × R
      → Option (Result Error (List D)) × R
  unfolding of_type
  listed project t (none, r) = (none, r)
  listed project t (some (err e), r) = (some (err e), r)
  listed project t (some (ok crs), r) = (some (ok (of_type project t crs)), r)

  unfoldable pub list_apply_desires : ℕ → Text → R → Option (Result Error (List ApplyDesire)) × R
  unfolding load_cluster_records listed
  list_apply_desires n mc r =
      listed project_apply_desire type_apply (load_cluster_records sc codec path_escape n mc r)

  unfoldable pub list_delete_desires : ℕ → Text → R → Option (Result Error (List DeleteDesire)) × R
  unfolding load_cluster_records listed
  list_delete_desires n mc r =
      listed project_delete_desire type_delete (load_cluster_records sc codec path_escape n mc r)

  unfoldable pub list_read_desires : ℕ → Text → R → Option (Result Error (List ReadDesire)) × R
  unfolding load_cluster_records listed
  list_read_desires n mc r =
      listed project_read_desire type_read (load_cluster_records sc codec path_escape n mc r)

module _ {R : Type 0} (sc : Scanner R) (c : Client R) (codec : Codec)
    (path_escape : Text → Text) where
  -- the loop of DeleteByPrefix
  unfoldable pub delete_matching : PrefixSelector → List ClusterRecord → Exec R Error (Unit {0})
  unfolding still_matches cas_delete
  delete_matching sel [] = pure tt
  delete_matching sel (cr ∷ crs) =
      let rest = delete_matching sel crs in
      if matches sel cr.record_of.identity
      then (λ r. cas_delete c codec cr.redis_key_of (still_matches sel) r) >> rest
      else rest

  unfoldable pub deleting :
      PrefixSelector
      → Option (Result Error (List ClusterRecord)) × R
      → Option (Result Error (Unit {0})) × R
  unfolding delete_matching
  deleting sel (none, r) = (none, r)
  deleting sel (some (err e), r) = (some (err e), r)
  deleting sel (some (ok crs), r) = let (x, u) = delete_matching sel crs r in (some x, u)

  unfoldable pub delete_by_prefix :
      ℕ → Text → PrefixSelector → R → Option (Result Error (Unit {0})) × R
  unfolding load_cluster_records deleting
  delete_by_prefix n mc sel r = deleting sel (load_cluster_records sc codec path_escape n mc r)

-- ===== src/Controllers/ReadDesire/Worker.antt =====
-- internal/controllers/readdesire/worker.go, with resolveGVR of controller.go. A quoted
-- text in a message stands without its quotes.
use hyperfleet_applier.Base.{◌++◌, ℕ, Bool, Option, none, some, if◌then◌else◌, ◌==◌}
use hyperfleet_applier.Controllers.ReadDesire.Informers.{TrackedInformer, Gvr}
use hyperfleet_applier.Base.Dict.{lookup}
use hyperfleet_applier.Desire.Validate.{Error}
use hyperfleet_applier.Controllers.ReadDesire.Mirror.{
  Controller, Mirrored, add_failed, add_performed, add_skipped, call, Mirror,
}
use hyperfleet_applier.Desire.Types.{ReadDesire, Identity, ReadStatus, identity_Eq}
use hyperfleet_applier.Base.Text.{Text, text_Eq, codes}
use hyperfleet_applier.Controllers.ReadDesire.Content.{JsonCodec}
use hyperfleet_applier.Desire.Platform.{Platform}
use hyperfleet_applier.Controllers.ReadDesire.Status.{
  synced, not_found, kube_api_error, read_status_equal,
}
use hyperfleet_applier.Controllers.Cluster.{
  Failure, store, KubeError, missing, no_match, other, error_text,
}
use hyperfleet_applier.Base.Result.{Result, ok, err}

module _ {W : Type 0} (c : Mirror W) where
  -- resolveGVR: ResourceFor, with one retry after a reset of a mapper that knows no match
  unfoldable pub retried :
      Gvr → Result KubeError Gvr × Controller W → Result KubeError Gvr × Controller W
  unfolding call
  retried partial (err no_match, s) =
      call (c.resource_for partial) (record s { world = c.reset s.world })
  retried partial (err missing, s) = (err missing, s)
  retried partial (err (other e), s) = (err (other e), s)
  retried partial (ok gvr, s) = (ok gvr, s)

  unfoldable pub resolve_gvr :
      Text → Text → Text → Controller W → Result KubeError Gvr × Controller W
  unfolding retried call
  resolve_gvr group target_version resource s =
      let partial : Gvr = record { group = group; version = target_version; resource = resource } in
      retried partial (call (c.resource_for partial) s)

  -- InformerManager.Lister, by the informer that the map has
  unfoldable pub listed_by :
      Option TrackedInformer → Controller W → Option (ℕ × Bool) × Controller W
  unfolding call
  listed_by none s = (none, s)
  listed_by (some ti) s =
      let (has_synced, t) = call (c.has_synced ti.stop_ch) s in (some (ti.stop_ch, has_synced), t)

  unfoldable pub lister : Identity → Controller W → Option (ℕ × Bool) × Controller W
  unfolding listed_by
  lister key s = listed_by (lookup key s.informers.informers) s

module _ {W J : Type 0} (c : Mirror W) (p : Platform J) (now : ℕ) where
  -- the two formatted messages
  abbrev pub live_mismatch : Text → Text → Text
  live_mismatch actual target_version =
      codes "live object version "
      ++ (actual
          ++ (codes " still does not match declared TargetVersion "
              ++ (target_version
                  ++ codes " after a direct Get (informer cache was not merely stale)")))

  abbrev pub not_synced : Text → Text
  not_synced e = codes "informer cache has not synced yet, cannot confirm absence: " ++ e

  -- json.Marshal, and the status for what it gives
  unfoldable pub content_status : ReadStatus → ℕ → Result Text Text → ReadStatus
  unfolding synced kube_api_error
  content_status current generation (ok content) = synced p now current generation content
  content_status current generation (err e) = kube_api_error p now current generation e

  -- observeLive, once the object is read
  unfoldable pub live_answered :
      Text → ℕ → ReadStatus → Result KubeError Mirrored × Controller W → ReadStatus × Controller W
  unfolding content_status not_found kube_api_error
  live_answered version generation current (err missing, s) =
      (not_found p now current generation, s)
  live_answered version generation current (err e, s) =
      (kube_api_error p now current generation (error_text e), s)
  live_answered version generation current (ok obj, s) =
      if obj.version == version
      then (content_status current generation obj.marshaled, s)
      else (kube_api_error p now current generation (live_mismatch obj.version version), s)

  unfoldable pub live_get :
      Identity
      → Text
      → ℕ
      → ReadStatus
      → Result KubeError Gvr × Controller W
      → ReadStatus × Controller W
  unfolding live_answered call
  live_get key version generation current (err e, s) =
      (kube_api_error p now current generation (error_text e), s)
  live_get key version generation current (ok gvr, s) =
      live_answered version generation current (call (c.get gvr key.namespace key.name) s)

  unfoldable pub observe_live :
      Identity → Text → ℕ → ReadStatus → Controller W → ReadStatus × Controller W
  unfolding live_get resolve_gvr
  observe_live key version generation current s =
      live_get key version generation current (resolve_gvr c key.group version key.resource s)

  -- observe, once the lister has answered
  unfoldable pub cache_answered :
      Identity
      → Text
      → ℕ
      → ReadStatus
      → Bool
      → Result KubeError Mirrored × Controller W
      → ReadStatus × Controller W
  unfolding observe_live content_status not_found kube_api_error
  cache_answered key version generation current has_synced (err missing, s) =
      if has_synced
      then (not_found p now current generation, s)
      else (kube_api_error p now current generation (not_synced (error_text missing)), s)
  cache_answered key version generation current has_synced (err e, s) =
      (kube_api_error p now current generation (error_text e), s)
  cache_answered key version generation current has_synced (ok obj, s) =
      if obj.version == version
      then (content_status current generation obj.marshaled, s)
      else observe_live key version generation current s

  -- observe, with what Lister gave: an informer and whether it has synced
  unfoldable pub observe_with :
      Identity
      → Text
      → ℕ
      → ReadStatus
      → Option (ℕ × Bool) × Controller W
      → ReadStatus × Controller W
  unfolding cache_answered call
  observe_with key version generation current (none, s) = (not_found p now current generation, s)
  observe_with key version generation current (some (informer, has_synced), s) =
      cache_answered key version generation current has_synced
        (call (c.cached informer key.namespace key.name) s)

  unfoldable pub observe :
      Identity → Text → ℕ → ReadStatus → Controller W → ReadStatus × Controller W
  unfolding observe_with lister
  observe key version generation current s =
      observe_with key version generation current (lister c key s)

module _ {W J : Type 0} (c : Mirror W) (p : Platform J) (json : JsonCodec) (now : ℕ) where
  -- applyStatus, once the status is written
  unfoldable pub written :
      Result Error ReadDesire × Controller W → Result Failure (Unit {0}) × Controller W
  unfolding add_performed add_failed
  written (ok _, s) = (ok tt, add_performed s)
  written (err e, s) = (err (store e), add_failed s)

  -- applyStatus, once the new status is computed
  unfoldable pub computed :
      Identity → ReadStatus → ReadStatus × Controller W → Result Failure (Unit {0}) × Controller W
  unfolding written add_skipped call
  computed id status (new_status, s) =
      if read_status_equal p json new_status status
      then (ok tt, add_skipped s)
      else written (call (c.update_read_desire_status id new_status) s)

  -- a desire that is gone is no error
  unfoldable pub not_fetched : Error → Result Failure (Unit {0})
  not_fetched Error.not_found = ok tt
  not_fetched e = err (store e)

  unfoldable pub fetched :
      Identity
      → (ReadDesire → Controller W → ReadStatus × Controller W)
      → Result Error ReadDesire × Controller W
      → Result Failure (Unit {0}) × Controller W
  unfolding computed not_fetched
  fetched id compute (err e, s) = (not_fetched e, s)
  fetched id compute (ok d, s) = computed id d.status (compute d s)

  unfoldable pub apply_status :
      Identity
      → (ReadDesire → Controller W → ReadStatus × Controller W)
      → Controller W
      → Result Failure (Unit {0}) × Controller W
  unfolding fetched call
  apply_status id compute s = fetched id compute (call (c.get_read_desire id) s)

  unfoldable pub sync : Identity → Controller W → Result Failure (Unit {0}) × Controller W
  unfolding apply_status observe
  sync key s =
      apply_status key (λ d t. observe c p now key d.target_version d.generation d.status t) s

-- ===== src/Controllers/ReadDesire/Justified.antt =====
-- What stands behind a status that observe gives (internal/controllers/readdesire/worker.go).
use hyperfleet_applier.Controllers.ReadDesire.Worker.{
  resolve_gvr, listed_by, lister, observe_live, cache_answered, live_answered, live_get, observe,
  observe_with, content_status,
}
use hyperfleet_applier.Controllers.ReadDesire.Mirror.{call, Mirrored, Controller, Mirror}
use hyperfleet_applier.Controllers.ReadDesire.Informers.{Gvr, TrackedInformer}
use hyperfleet_applier.Base.Dict.{lookup}
use hyperfleet_applier.Desire.Types.{ReadStatus, Identity, identity_Eq}
use hyperfleet_applier.Base.Text.{Text, text_Eq, text_eq_iff}
use hyperfleet_applier.Base.{
  ℕ, ◌≡◌, ◌⊎◌, refl, ap, inl, inr, Bool, true, false, Option, none, some, Bool-cases, ◌==◌,
}
use hyperfleet_applier.Desire.Platform.{Platform}
use hyperfleet_applier.Base.Result.{Result, ok, err}
use hyperfleet_applier.Controllers.Cluster.{KubeError, missing, no_match, other}
use hyperfleet_applier.Controllers.ReadDesire.Status.{synced, not_found, kube_api_error}

pair-eta : {A B : Type 0} {x : A × B} {a : A} → x.0 ≡ a → x ≡ (a, x.1)
pair-eta {x} h = ap (λ a. (a, x.1)) h

module _ {W J : Type 0} (c : Mirror W) (p : Platform J) (now : ℕ) where
  -- The key has no informer; or its cache, which had synced before it was read, misses the object; or
  -- the API server does.
  pub data IsAbsent (key : Identity) (version : Text) (s : Controller W) : Type 0 where
    untracked : lookup key s.informers.informers ≡ none → IsAbsent key version s
    not_cached :
        (ti : TrackedInformer) (w u : W)
        → lookup key s.informers.informers ≡ some ti
        → c.has_synced ti.stop_ch s.world ≡ (true, w)
        → c.cached ti.stop_ch key.namespace key.name w ≡ (err missing, u)
        → IsAbsent key version s
    not_served :
        (gvr : Gvr) (r t : Controller W) (u : W)
        → resolve_gvr c key.group version key.resource r ≡ (ok gvr, t)
        → c.get gvr key.namespace key.name t.world ≡ (err missing, u)
        → IsAbsent key version s

  -- `content` is what an object marshals to that has the declared version, and which the key's cache or
  -- the API server gave.
  pub data IsServed (key : Identity) (version content : Text) (s : Controller W) : Type 0 where
    from_cache :
        (ti : TrackedInformer) (obj : Mirrored) (w u : W)
        → lookup key s.informers.informers ≡ some ti
        → c.cached ti.stop_ch key.namespace key.name w ≡ (ok obj, u)
        → obj.version ≡ version
        → obj.marshaled ≡ ok content
        → IsServed key version content s
    from_server :
        (gvr : Gvr) (obj : Mirrored) (r t : Controller W) (u : W)
        → resolve_gvr c key.group version key.resource r ≡ (ok gvr, t)
        → c.get gvr key.namespace key.name t.world ≡ (ok obj, u)
        → obj.version ≡ version
        → obj.marshaled ≡ ok content
        → IsServed key version content s

  abbrev pub Justified : Identity → Text → ℕ → ReadStatus → Controller W → ReadStatus → Type 0
  Justified key version generation current s status =
      ((status ≡ not_found p now current generation) × IsAbsent key version s)
      ⊎ ((content : Text) × (status ≡ synced p now current generation content)
          × IsServed key version content s)
      ⊎ ((message : Text) × (status ≡ kube_api_error p now current generation message))

  module _ (key : Identity) (version : Text) (generation : ℕ) (current : ReadStatus)
      (s : Controller W) where
    served :
        (obj : Mirrored)
        → ((content : Text) → obj.marshaled ≡ ok content → IsServed key version content s)
        → (r : Result Text Text) → obj.marshaled ≡ r
        → Justified key version generation current s (content_status c p now current generation r)
    unfolding content_status
    served obj k (ok content) h = inr (inl (content, refl, k content h))
    served obj k (err e) h = inr (inr (e, refl))

    live_answered-Justified :
        (gvr : Gvr) (before after : Controller W) (r : Result KubeError Mirrored) (t : Controller W)
        → resolve_gvr c key.group version key.resource before ≡ (ok gvr, after)
        → (c.get gvr key.namespace key.name after.world).0 ≡ r
        → Justified key version generation current s
            (live_answered c p now version generation current (r, t)).0
    unfolding live_answered
    live_answered-Justified gvr before after (err missing) t e h =
        inl (refl, not_served gvr before after _ e (pair-eta h))
    live_answered-Justified gvr before after (err no_match) t e h = inr (inr (_, refl))
    live_answered-Justified gvr before after (err (other e)) t q h = inr (inr (_, refl))
    live_answered-Justified gvr before after (ok obj) t e h =
        elim (Bool-cases (obj.version == version)) [
          | inl y ↦ rw y (
              served obj
                (λ content m.
                  from_server gvr obj before after _ e (pair-eta h) ((text_eq_iff _ _).0 y) m)
                obj.marshaled refl)
          | inr n ↦ rw n (inr (inr (_, refl)))
        ]

    live_get-Justified :
        (before : Controller W) (r : Result KubeError Gvr) (t : Controller W)
        → resolve_gvr c key.group version key.resource before ≡ (r, t)
        → Justified key version generation current s
            (live_get c p now key version generation current (r, t)).0
    unfolding live_get call
    live_get-Justified before (err e) t h = inr (inr (_, refl))
    live_get-Justified before (ok gvr) t h = live_answered-Justified gvr before t _ _ h refl

    cache_answered-Justified :
        (ti : TrackedInformer) (has_synced : Bool) (w u : W) (r : Result KubeError Mirrored)
        (t : Controller W)
        → lookup key s.informers.informers ≡ some ti
        → c.has_synced ti.stop_ch s.world ≡ (has_synced, w)
        → c.cached ti.stop_ch key.namespace key.name w ≡ (r, u)
        → Justified key version generation current s
            (cache_answered c p now key version generation current has_synced (r, t)).0
    unfolding cache_answered observe_live
    cache_answered-Justified ti true w u (err missing) t at sy h =
        inl (refl, not_cached ti w u at sy h)
    cache_answered-Justified ti false w u (err missing) t at sy h = inr (inr (_, refl))
    cache_answered-Justified ti b w u (err no_match) t at sy h = inr (inr (_, refl))
    cache_answered-Justified ti b w u (err (other e)) t at sy h = inr (inr (_, refl))
    cache_answered-Justified ti b w u (ok obj) t at sy h =
        elim (Bool-cases (obj.version == version)) [
          | inl y ↦ rw y (
              served obj (λ content m. from_cache ti obj w u at h ((text_eq_iff _ _).0 y) m)
                obj.marshaled refl)
          | inr n ↦ rw n (live_get-Justified t _ _ refl)
        ]

    observe_with-Justified :
        (o : Option TrackedInformer)
        → lookup key s.informers.informers ≡ o
        → Justified key version generation current s
            (observe_with c p now key version generation current (listed_by c o s)).0
    unfolding observe_with listed_by call
    observe_with-Justified none at = inl (refl, untracked at)
    observe_with-Justified (some ti) at =
        cache_answered-Justified ti _ _ _ _ _ at (pair-eta refl) (pair-eta refl)

    -- The status that observe gives is NotFound only if the key has no informer, or its cache had synced
    -- and misses the object, or the API server does; it is Synced only with the content of an object of
    -- the declared version that the cache or the API server gave; and else it is a KubeAPIError.
    pub observe-Justified :
        Justified key version generation current s
          (observe c p now key version generation current s).0
    unfolding observe lister
    observe-Justified = observe_with-Justified (lookup key s.informers.informers) refl

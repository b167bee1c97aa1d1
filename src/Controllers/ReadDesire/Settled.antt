-- ===== src/Controllers/ReadDesire/Settled.antt =====
-- A ReadDesire whose object has not changed is not written again
-- (internal/controllers/readdesire/worker.go and status.go).
use hyperfleet_applier.Controllers.ReadDesire.SameObject.{semantic_content_equal_iff, IsSame}
use hyperfleet_applier.Base.Result.{err, Result, ok}
use hyperfleet_applier.Controllers.ReadDesire.Mirror.{
  add_failed, add_performed, add_skipped, Mirrored, Controller, call, Mirror,
}
use hyperfleet_applier.Controllers.ReadDesire.Worker.{
  written, listed_by, content_status, cache_answered, observe_with, lister, observe, computed,
  fetched, apply_status, sync,
}
use hyperfleet_applier.Base.{
  ◌⊎◌, inl, inr, Bool-cases, ◌∙◌, subst, ℕ, ◌≡◌, refl, sym, Bool, true, some, List, [], ◌∷◌, arith,
}
use hyperfleet_applier.Desire.Validate.{Error}
use hyperfleet_applier.Base.Dict.{lookup}
use hyperfleet_applier.Controllers.ReadDesire.Informers.{TrackedInformer}
use hyperfleet_applier.Desire.Types.{
  ReadDesire, Identity, reason_synced, condition_true, ReadStatus, Status, Condition, identity_Eq,
}
use hyperfleet_applier.Controllers.Cluster.{
  successful, with_condition, all_found, equal, same_condition,
}
use hyperfleet_applier.Controllers.ReadDesire.Content.{semantic_content_equal, JsonCodec}
use hyperfleet_applier.Base.Text.{Text, text_Eq, text_eq_iff}
use hyperfleet_applier.Controllers.ReadDesire.Status.{
  with_read_condition, read_status_equal, synced,
}
use hyperfleet_applier.Desire.Platform.{Platform}

module _ {J : Type 0} (p : Platform J) where
  -- Each condition of the first list is the one that its type finds in the second.
  abbrev pub Found : List Condition → List Condition → Type 0
  Found [] bs = Unit
  Found (a ∷ rest) bs = (p.find_status_condition bs a.type ≡ some a) × Found rest bs

  same_condition_self : (a : Condition) → same_condition p a a ≡ true
  unfolding same_condition
  same_condition_self a = ground (
    arith,
    text_eq_iff a.type a.type,
    text_eq_iff a.status a.status,
    text_eq_iff a.reason a.reason,
    text_eq_iff a.message a.message,
  )

  all_found_self : (xs bs : List Condition) → Found xs bs → all_found p xs bs ≡ true
  unfolding all_found
  all_found_self [] bs h = refl
  all_found_self (a ∷ rest) bs h =
      let same = same_condition_self a in
      let rest_found = all_found_self rest bs h.1 in let here = h.0 in ground (arith)

  pub equal_self : (a : Status) → Found a.conditions a.conditions → equal p a a ≡ true
  unfolding equal
  equal_self a h = ground (arith, all_found_self a.conditions a.conditions h)

module _ {W J : Type 0} (c : Mirror W) (p : Platform J) (json : JsonCodec) (now : ℕ) where
  -- The stored status is what an earlier sync gave for the generation, from some base.
  synced-Settled :
      (before : ℕ) (base : ReadStatus) (generation : ℕ) (content content' : Text)
      → ((cs : List Condition) (cond : Condition)
          → p.set_status_condition now (p.set_status_condition before cs cond) cond
            ≡ p.set_status_condition before cs cond)
      → Found p
          (synced p before base generation content).status.conditions
          (synced p before base generation content).status.conditions
      → read_status_equal p json
          (synced p now (synced p before base generation content) generation content')
          (synced p before base generation content)
        ≡ semantic_content_equal json content' content
  unfolding read_status_equal synced with_read_condition with_condition
  synced-Settled before base generation content content' law found =
      let e = law base.status.conditions (successful condition_true generation reason_synced []) in
      rw e (rw (equal_self p _ found) refl)

  -- observe, where the cache holds an object of the declared version
  observe-cached :
      (s : Controller W) (key : Identity) (version : Text) (generation : ℕ) (current : ReadStatus)
      (ti : TrackedInformer) (obj : Mirrored) (has_synced : Bool) (content : Text) (w2 w3 : W)
      → lookup key s.informers.informers ≡ some ti
      → c.has_synced ti.stop_ch s.world ≡ (has_synced, w2)
      → c.cached ti.stop_ch key.namespace key.name w2 ≡ (ok obj, w3)
      → obj.version ≡ version
      → obj.marshaled ≡ ok content
      → observe c p now key version generation current s
        ≡ (synced p now current generation content, record s { world = w3 })
  unfolding observe lister listed_by call observe_with cache_answered content_status
  observe-cached s key version generation current ti obj has_synced content w2 w3 at sy cached v m =
      rw at (rw sy (rw cached (rw ((text_eq_iff obj.version version).1 v) (rw m refl))))

  written-world :
      (r : Result Error ReadDesire) (t : Controller W)
      → (written c p json now (r, t)).1.world ≡ t.world
  unfolding written add_performed add_failed
  written-world (ok _) t = refl
  written-world (err _) t = refl

  -- Let the stored status be that of an earlier sync for the desire's generation, and let the key's cache
  -- hold an object of the declared version. Then either the contents are the same but for the metadata
  -- that Kubernetes manages, and a sync writes nothing and counts one skipped write; or they are not, and
  -- the sync ends with the update of the status. It is taken that setting a condition that is already set
  -- keeps the conditions, and that each stored condition is the one that its type finds.
  pub sync-IsSame :
      (s : Controller W) (key : Identity) (d : ReadDesire) (before : ℕ) (base : ReadStatus)
      (content content' : Text) (ti : TrackedInformer) (obj : Mirrored) (has_synced : Bool)
      (w1 w2 w3 : W)
      → ((cs : List Condition) (cond : Condition)
          → p.set_status_condition now (p.set_status_condition before cs cond) cond
            ≡ p.set_status_condition before cs cond)
      → Found p d.status.status.conditions d.status.status.conditions
      → c.get_read_desire key s.world ≡ (ok d, w1)
      → d.status ≡ synced p before base d.generation content
      → lookup key s.informers.informers ≡ some ti
      → c.has_synced ti.stop_ch w1 ≡ (has_synced, w2)
      → c.cached ti.stop_ch key.namespace key.name w2 ≡ (ok obj, w3)
      → obj.version ≡ d.target_version
      → obj.marshaled ≡ ok content'
      → (IsSame json content' content
          × (sync c p json now key s ≡ (ok tt, add_skipped (record s { world = w3 }))))
        ⊎ ((IsSame json content' content → ⊥)
            × ((sync c p json now key s).1.world
                ≡ (c.update_read_desire_status key
                    (synced p now d.status d.generation content')
                    w3).1))
  unfolding sync apply_status fetched computed call
  sync-IsSame s key d before base content content' ti obj has_synced w1 w2 w3 law found get stored
        at sy cached version marshaled =
      let status_same =
        subst
          (λ x.
            read_status_equal p json (synced p now x d.generation content') x
            ≡ semantic_content_equal json content' content)
          (sym stored)
          (synced-Settled before base d.generation content content' law
            (subst (λ x. Found p x.status.conditions x.status.conditions) stored found)) in
      let seen =
        observe-cached (record s { world = w1 }) key d.target_version d.generation d.status ti obj
          has_synced content' w2 w3 at sy cached version marshaled in
      let test = semantic_content_equal_iff json content' content in
      elim (Bool-cases (semantic_content_equal json content' content)) [
        | inl y ↦ inl (test.0 y, rw get (rw seen (rw (status_same ∙ y) refl)))
        | inr n ↦ inr (
          λ q. cc (sym n ∙ test.1 q),
          rw get (rw seen (rw (status_same ∙ n) (written-world _ _))),
        )
      ]

-- ===== src/Controllers/ReadDesire/Kept.antt =====
-- What Reconcile leaves of each key (internal/controllers/readdesire/informer_manager.go).
use hyperfleet_applier.Base.Dict.{lookup_skip, lookup_head, lookup-empty, IsUnique, lookup, Dict}
use hyperfleet_applier.Controllers.ReadDesire.Reconciled.{
  ensure_from-Same, ensure_all-Ensured, Ensured, ensure_all-Same,
}
use hyperfleet_applier.Controllers.ReadDesire.Stopped.{
  key_ne, gvr_eq_iff, stop_unseen-seen, stop_unseen-unseen,
}
use hyperfleet_applier.Desire.Types.{identity_eq_iff, identity_eq, identity_Eq, Identity}
use hyperfleet_applier.Base.{
  [], ◌∷◌, sym, Bool-cases, ap, ◌≡◌, refl, ◌∙◌, Option, none, some, inl, inr,
}
use hyperfleet_applier.Controllers.ReadDesire.Informers.{
  ensure, ensure_all, ensure_from, reconcile, stop_unseen, InformerManager, InformerTarget,
  TrackedInformer,
}
use hyperfleet_applier.Base.Text.{Text}

-- what is left of an informer whose desire is in `seen`, and of one whose desire is not
abbrev pub kept : Option (Unit {0}) → Option TrackedInformer → Option TrackedInformer
kept none before = none
kept (some _) before = before

kept-stop_unseen :
    (seen : Dict Identity (Unit {0})) (m : InformerManager) (j : Identity) (o : Option (Unit {0}))
    → lookup j seen ≡ o
    → lookup j (stop_unseen seen m.informers m).informers ≡ kept o (lookup j m.informers)
kept-stop_unseen seen m j none h = stop_unseen-unseen seen m.informers m j h λ q. q
kept-stop_unseen seen m j (some u) h = stop_unseen-seen seen m.informers m j h

module _ (wire : Identity → InformerTarget → Option Text) (seen : Dict Identity (Unit {0}))
    (want : Dict Identity InformerTarget) (m : InformerManager) (j : Identity) where
  -- Reconcile reports no failure for a key that is not in `want`. It leaves the key's informer as it
  -- was if the key is in `seen`, as one whose resource could not be resolved this time is, and else
  -- the key has no informer.
  pub reconcile-unwanted :
      lookup j want ≡ none
      → (lookup j (reconcile wire seen want m).0 ≡ none)
        × (lookup j (reconcile wire seen want m).1.informers
            ≡ kept (lookup j seen) (lookup j m.informers))
  unfolding reconcile
  reconcile-unwanted h =
      let s = ensure_all-Same wire want j [] (stop_unseen seen m.informers m) h in
      (s.0 ∙ lookup-empty j, s.1 ∙ kept-stop_unseen seen m j (lookup j seen) refl)

  -- After Reconcile, a key that `want` has once either has an informer on the wanted resource and no
  -- failure, or has no informer and the failure to start one.
  pub reconcile-wanted :
      {target : InformerTarget}
      → IsUnique want
      → lookup j want ≡ some target
      → Ensured wire j target (reconcile wire seen want m)
  unfolding reconcile
  reconcile-wanted {target} u h =
      ensure_all-Ensured wire want j target [] (stop_unseen seen m.informers m) u h (lookup-empty j)

module _ (wire : Identity → InformerTarget → Option Text) where
  ensure_from-kept :
      (j : Identity) (target : InformerTarget) (ti : TrackedInformer) (failed : Dict Identity Text)
      (m : InformerManager) (o : Option TrackedInformer)
      → o ≡ some ti
      → target.gvr ≡ ti.gvr
      → ensure_from wire j target failed m o ≡ (failed, m)
  unfolding ensure_from
  ensure_from-kept j target ti failed m none h g = cc
  ensure_from-kept j target ti failed m (some ti') h g =
      let same : ti' ≡ ti = cc h in
      let g' =
        (gvr_eq_iff ti'.gvr target.gvr).1 (ap (λ (t : TrackedInformer). t.gvr) same ∙ sym g) in
      rw g' refl

  ensure_all-kept :
      (want : Dict Identity InformerTarget) (j : Identity) (ti : TrackedInformer)
      (failed : Dict Identity Text) (m : InformerManager)
      → IsUnique want
      → lookup j m.informers ≡ some ti
      → ((x : InformerTarget) → lookup j want ≡ some x → x.gvr ≡ ti.gvr)
      → lookup j (ensure_all wire want (failed, m)).1.informers ≡ some ti
  unfolding ensure_all ensure
  ensure_all-kept [] j ti failed m u at k = at
  ensure_all-kept ((key, target) ∷ rest) j ti failed m u at k =
      elim (Bool-cases (identity_eq key j)) [
        | inl y ↦
            let e = (identity_eq_iff key j).0 y in
            let g =
              k target
                (ap (λ i. lookup i ((key, target) ∷ rest)) (sym e) ∙ lookup_head key target rest) in
            let same =
              ensure_from-kept key target ti failed m _ (ap (λ i. lookup i m.informers) e ∙ at) g in
            let none_left = ap (λ i. lookup i rest) (sym e) ∙ u.0 in
            let mid = ensure_from wire key target failed m (lookup key m.informers) in
            (ensure_all-Same wire rest j mid.0 mid.1 none_left).1
            ∙ ap (λ (x : Dict Identity Text × InformerManager). lookup j x.1.informers) same
            ∙ at
        | inr o ↦
            let mid = ensure_from wire key target failed m (lookup key m.informers) in
            let s =
              ensure_from-Same wire key j target failed m (lookup key m.informers)
                (key_ne key j o) in
            ensure_all-kept rest j ti mid.0 mid.1 u.1 (s.1 ∙ at)
              λ x h. k x (lookup_skip key j target rest o ∙ h)
      ]

  -- Reconcile keeps the very informer of a key in `seen`, where `want` has no other resource for the key.
  pub reconcile-steady :
      (seen : Dict Identity (Unit {0})) (want : Dict Identity InformerTarget) (m : InformerManager)
      (j : Identity) (ti : TrackedInformer)
      → IsUnique want
      → lookup j seen ≡ some tt
      → lookup j m.informers ≡ some ti
      → ((x : InformerTarget) → lookup j want ≡ some x → x.gvr ≡ ti.gvr)
      → lookup j (reconcile wire seen want m).1.informers ≡ some ti
  unfolding reconcile
  reconcile-steady seen want m j ti u h at k =
      ensure_all-kept want j ti [] (stop_unseen seen m.informers m) u
        (stop_unseen-seen seen m.informers m j h ∙ at) k

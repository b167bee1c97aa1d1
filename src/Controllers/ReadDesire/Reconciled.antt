-- ===== src/Controllers/ReadDesire/Reconciled.antt =====
-- Which informers run after a poll (internal/controllers/readdesire/informer_manager.go, Reconcile).
use hyperfleet_applier.Base.{
  ◌≡◌, ◌≢◌, ◌⊎◌, inl, inr, refl, sym, ◌∙◌, ap, subst, Option, none, some, [], ◌∷◌, Bool-cases,
}
use hyperfleet_applier.Base.Text.{Text, text_Eq}
use hyperfleet_applier.Base.Dict.{
  Dict, IsUnique, lookup, lookup-insert_self, lookup-insert_ne, lookup-remove_self,
  lookup-remove_ne, lookup_head, lookup_skip, lookup-empty,
}
use hyperfleet_applier.Desire.Types.{Identity, identity_Eq, identity_eq, identity_eq_iff}
use hyperfleet_applier.Controllers.ReadDesire.Informers.{
  InformerTarget, TrackedInformer, InformerManager, stop_informer, start, wired, ensure,
  ensure_from, ensure_all, note_failure, gvr_eq,
}
use hyperfleet_applier.Controllers.ReadDesire.Stopped.{gvr_eq_iff, key_ne}

-- The informer of a wanted key runs on its target, or could not be started.
abbrev pub Ensured :
    (Identity → InformerTarget → Option Text)
    → Identity
    → InformerTarget
    → Dict Identity Text × InformerManager
    → Type 0
Ensured wire key target r =
    ((ti : TrackedInformer) × (lookup key r.1.informers ≡ some ti)
      × (ti.gvr ≡ target.gvr)
      × (lookup key r.0 ≡ none))
    ⊎ ((e : Text) × (wire key target ≡ some e)
        × (lookup key r.1.informers ≡ none)
        × (lookup key r.0 ≡ some e))

-- nothing changed for a key
abbrev Same :
    Identity → Dict Identity Text × InformerManager → Dict Identity Text × InformerManager → Type 0
Same j a b = (lookup j a.0 ≡ lookup j b.0) × (lookup j a.1.informers ≡ lookup j b.1.informers)

module _ (wire : Identity → InformerTarget → Option Text) where
  wired-Ensured :
      (key : Identity) (target : InformerTarget) (failed : Dict Identity Text) (m : InformerManager)
      (o : Option Text)
      → wire key target ≡ o
      → lookup key failed ≡ none
      → lookup key m.informers ≡ none
      → Ensured wire key target (note_failure wire key (wired key target m o) failed)
  unfolding wired
  wired-Ensured key target failed m none w f n =
      inl (_, lookup-insert_self key _ m.informers, refl, f)
  wired-Ensured key target failed m (some e) w f n = inr (e, w, n, lookup-insert_self key e failed)

  Ensured-Same :
      (key : Identity) (target : InformerTarget) (a b : Dict Identity Text × InformerManager)
      → Same key a b
      → Ensured wire key target b
      → Ensured wire key target a
  Ensured-Same key target a b (f, i) (inl (ti, at, g, n)) = inl (ti, i ∙ at, g, f ∙ n)
  Ensured-Same key target a b (f, i) (inr (e, w, at, n)) = inr (e, w, i ∙ at, f ∙ n)

  ensure_from-Ensured :
      (key : Identity) (target : InformerTarget) (failed : Dict Identity Text) (m : InformerManager)
      (o : Option TrackedInformer)
      → lookup key m.informers ≡ o
      → lookup key failed ≡ none
      → Ensured wire key target (ensure_from wire key target failed m o)
  unfolding ensure_from start stop_informer
  ensure_from-Ensured key target failed m none at f =
      wired-Ensured key target failed m (wire key target) refl f at
  ensure_from-Ensured key target failed m (some ti) at f =
      elim (Bool-cases (gvr_eq ti.gvr target.gvr)) [
        | inl y ↦ rw y (inl (ti, at, (gvr_eq_iff _ _).0 y, f))
        | inr n ↦ rw n (
            wired-Ensured key target failed (stop_informer key ti m) (wire key target) refl f
              (lookup-remove_self key m.informers))
      ]

  wired-Same :
      (key j : Identity) (target : InformerTarget) (failed : Dict Identity Text)
      (m : InformerManager) (o : Option Text)
      → key ≢ j
      → Same j (note_failure wire key (wired key target m o) failed) (failed, m)
  unfolding wired
  wired-Same key j target failed m none n = (refl, lookup-insert_ne key j _ m.informers n)
  wired-Same key j target failed m (some e) n = (lookup-insert_ne key j e failed n, refl)

  pub ensure_from-Same :
      (key j : Identity) (target : InformerTarget) (failed : Dict Identity Text)
      (m : InformerManager) (o : Option TrackedInformer)
      → key ≢ j
      → Same j (ensure_from wire key target failed m o) (failed, m)
  unfolding ensure_from start stop_informer
  ensure_from-Same key j target failed m none n = wired-Same key j target failed m _ n
  ensure_from-Same key j target failed m (some ti) n =
      elim (Bool-cases (gvr_eq ti.gvr target.gvr)) [
        | inl y ↦ rw y (refl, refl)
        | inr o ↦
            let s = wired-Same key j target failed (stop_informer key ti m) (wire key target) n in
            rw o (s.0, s.1 ∙ lookup-remove_ne key j m.informers n)
      ]

  pub ensure_all-Same :
      (want : Dict Identity InformerTarget) (j : Identity) (failed : Dict Identity Text)
      (m : InformerManager)
      → lookup j want ≡ none
      → Same j (ensure_all wire want (failed, m)) (failed, m)
  unfolding ensure_all ensure
  ensure_all-Same [] j failed m h = (refl, refl)
  ensure_all-Same ((key, target) ∷ rest) j failed m h = elim (Bool-cases (identity_eq key j)) [
    | inl y ↦ cc (
        sym h
        ∙ ap (λ i. lookup i ((key, target) ∷ rest)) (sym ((identity_eq_iff key j).0 y))
        ∙ lookup_head key target rest)
    | inr o ↦
        let a = ensure_all-Same rest j _ _ (sym (lookup_skip key j target rest o) ∙ h) in
        let b = ensure_from-Same key j target failed m (lookup key m.informers) (key_ne key j o) in
        (a.0 ∙ b.0, a.1 ∙ b.1)
  ]

  pub ensure_all-Ensured :
      (want : Dict Identity InformerTarget) (j : Identity) (target : InformerTarget)
      (failed : Dict Identity Text) (m : InformerManager)
      → IsUnique want
      → lookup j want ≡ some target
      → lookup j failed ≡ none
      → Ensured wire j target (ensure_all wire want (failed, m))
  unfolding ensure_all ensure
  ensure_all-Ensured [] j target failed m u h f = cc (sym h ∙ lookup-empty j)
  ensure_all-Ensured ((key, t) ∷ rest) j target failed m u h f =
      elim (Bool-cases (identity_eq key j)) [
        | inl y ↦
            let e = (identity_eq_iff key j).0 y in
            let same : t ≡ target =
              cc (sym (lookup_head key t rest) ∙ ap (λ i. lookup i ((key, t) ∷ rest)) e ∙ h) in
            let here =
              ensure_from-Ensured key t failed m (lookup key m.informers) refl
                (ap (λ i. lookup i failed) e ∙ f) in
            let mid = ensure_from wire key t failed m (lookup key m.informers) in
            let rest_same = ensure_all-Same rest key mid.0 mid.1 u.0 in
            subst
              (λ i.
                Ensured wire i target
                  (ensure_all wire rest (ensure_from wire key t failed m (lookup key m.informers))))
              e
              (subst
                (λ x.
                  Ensured wire key x (
                    ensure_all wire rest
                      (ensure_from wire key t failed m (lookup key m.informers))))
                same (Ensured-Same key t (ensure_all wire rest mid) mid rest_same here))
        | inr o ↦
            let s = ensure_from-Same key j t failed m (lookup key m.informers) (key_ne key j o) in
            ensure_all-Ensured rest j target _ _ u.1 (sym (lookup_skip key j t rest o) ∙ h)
              (s.0 ∙ f)
      ]

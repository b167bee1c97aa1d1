-- ===== src/Controllers/ReadDesire/Collected.antt =====
-- What pollOnce's loop over the listed desires collects (internal/controllers/readdesire/controller.go).
use hyperfleet_applier.Controllers.Cluster.{KubeError, Failure}
use hyperfleet_applier.Controllers.ReadDesire.Mirror.{call, Controller, Mirror}
use hyperfleet_applier.Controllers.ReadDesire.Poll.{gather, resolved, unless_done, Sets}
use hyperfleet_applier.Base.{
  ℕ, arith, subst, ◌≡◌, ◌≢◌, ◌⊎◌, refl, sym, ◌∙◌, ap, inl, inr, Bool, true, false, ◌||◌, Option,
  none, some, List, [], ◌∷◌, Bool-cases, ◌==◌,
}
use hyperfleet_applier.Controllers.ReadDesire.Content.{JsonCodec}
use hyperfleet_applier.Controllers.ReadDesire.Stopped.{key_ne}
use hyperfleet_applier.Desire.Platform.{Platform}
use hyperfleet_applier.Base.Dict.{
  lookup-insert_self, insert-IsUnique, insert, lookup-insert_cases, lookup-insert_ne, Dict,
  IsUnique, lookup,
}
use hyperfleet_applier.Desire.Types.{identity_eq_iff, ReadDesire, Identity, identity_Eq}
use hyperfleet_applier.Base.Result.{ok_eq, Result, ok, err}
use hyperfleet_applier.Controllers.ReadDesire.Informers.{InformerTarget, Gvr}
use hyperfleet_applier.Controllers.ReadDesire.Worker.{resolve_gvr}

-- a desire with this identity is in the list
unfoldable pub lists : Identity → List ReadDesire → Bool
lists j [] = false
lists j (d ∷ ds) = d.identity == j || lists j ds

module _ {W : Type 0} (c : Mirror W) where
  -- Whenever the mapper answers for the desires of this identity, it gives this resource.
  abbrev pub Steady : Identity → Gvr → List ReadDesire → Type 0
  Steady j g [] = Unit
  Steady j g (d ∷ ds) =
      ((t : Controller W) (x : Gvr)
        → d.identity ≡ j
        → (resolve_gvr c d.identity.group d.target_version d.identity.resource t).0 ≡ ok x
        → x ≡ g)
      × Steady j g ds

  -- What the loop over the listed desires collects, when it comes to its end.
  pub record Collected (ds : List ReadDesire) (before after : Sets) : Type 0 where
    pub listed_seen : (j : Identity) → lists j ds ≡ true → lookup j after.0 ≡ some tt
    pub unlisted_seen : (j : Identity) → lists j ds ≡ false → lookup j after.0 ≡ lookup j before.0
    pub unlisted_want : (j : Identity) → lists j ds ≡ false → lookup j after.1 ≡ lookup j before.1
    pub unique : IsUnique before.1 → IsUnique after.1
    pub steady :
        (j : Identity) (g : Gvr)
        → Steady j g ds
        → ((x : InformerTarget) → lookup j before.1 ≡ some x → x.gvr ≡ g)
        → (x : InformerTarget) → lookup j after.1 ≡ some x
        → x.gvr ≡ g

  Collected-nothing : (sets : Sets) → Collected [] sets sets
  unfolding lists
  Collected-nothing sets = record {
    listed_seen = λ j h. cc;
    unlisted_seen = λ j h. refl;
    unlisted_want = λ j h. refl;
    unique = λ u. u;
    steady = λ j g h k. k;
  }

  -- `want` after the round of one desire
  abbrev pub Grown :
      ReadDesire → Dict Identity InformerTarget → Dict Identity InformerTarget → Type 0
  Grown d want want_d =
      (want_d ≡ want)
      ⊎ ((x : InformerTarget) × (t : Controller W) × (want_d ≡ insert d.identity x want)
          × ((resolve_gvr c d.identity.group d.target_version d.identity.resource t).0 ≡ ok x.gvr))

  Grown-unlisted :
      (d : ReadDesire) (want want_d : Dict Identity InformerTarget) (j : Identity)
      → Grown d want want_d
      → d.identity ≢ j
      → lookup j want_d ≡ lookup j want
  Grown-unlisted d want want_d j (inl e) n = ap (λ w. lookup j w) e
  Grown-unlisted d want want_d j (inr (x, t, e, _)) n =
      ap (λ w. lookup j w) e ∙ lookup-insert_ne d.identity j x want n

  Grown-IsUnique :
      (d : ReadDesire) (want want_d : Dict Identity InformerTarget)
      → Grown d want want_d
      → IsUnique want
      → IsUnique want_d
  Grown-IsUnique d want want_d (inl e) u = subst (λ w. IsUnique w) (sym e) u
  Grown-IsUnique d want want_d (inr (x, t, e, _)) u =
      subst (λ w. IsUnique w) (sym e) (insert-IsUnique d.identity x want u)

  Grown-Steady :
      (d : ReadDesire) (ds : List ReadDesire) (want want_d : Dict Identity InformerTarget)
      (j : Identity) (g : Gvr)
      → Grown d want want_d
      → Steady j g (d ∷ ds)
      → ((x : InformerTarget) → lookup j want ≡ some x → x.gvr ≡ g)
      → (x : InformerTarget) → lookup j want_d ≡ some x
      → x.gvr ≡ g
  Grown-Steady d ds want want_d j g (inl e) st k x h = k x (ap (λ w. lookup j w) (sym e) ∙ h)
  Grown-Steady d ds want want_d j g (inr (y, t, e, r)) st k x h =
      elim (lookup-insert_cases d.identity j y x want (ap (λ w. lookup j w) (sym e) ∙ h)) [
        | inl (same, q) ↦ subst (λ z. z.gvr ≡ g) q (st.0 t y.gvr same r)
        | inr q ↦ k x q
      ]

  pub Collected-step :
      (d : ReadDesire) (ds : List ReadDesire) (seen : Dict Identity (Unit {0}))
      (want want_d : Dict Identity InformerTarget) (after : Sets)
      → Grown d want want_d
      → Collected ds (insert d.identity tt seen, want_d) after
      → Collected (d ∷ ds) (seen, want) after
  unfolding lists
  Collected-step d ds seen want want_d after gr r = record {
    listed_seen = λ j h. elim (Bool-cases (lists j ds)) [
      | inl y ↦ r.listed_seen j y
      | inr o ↦
          let e = (identity_eq_iff d.identity j).0 (ground (arith, h, o)) in
          r.unlisted_seen j o
          ∙ subst (λ i. lookup i (insert d.identity tt seen) ≡ some tt) e
              (lookup-insert_self d.identity tt seen)
    ];
    unlisted_seen = λ j h.
        r.unlisted_seen j (ground (arith, h))
        ∙ lookup-insert_ne d.identity j tt seen (key_ne d.identity j (ground (arith, h)));
    unlisted_want = λ j h.
        r.unlisted_want j (ground (arith, h))
        ∙ Grown-unlisted d want want_d j gr (key_ne d.identity j (ground (arith, h)));
    unique = λ u. r.unique (Grown-IsUnique d want want_d gr u);
    steady = λ j g st k. r.steady j g st.1 (Grown-Steady d ds want want_d j g gr st k);
  }

module _ {W J : Type 0} (c : Mirror W) (p : Platform J) (json : JsonCodec) (now : ℕ) where
  resolved-Grown :
      (d : ReadDesire) (want : Dict Identity InformerTarget) (t u : Controller W)
      (r : Result KubeError Gvr)
      → (resolve_gvr c d.identity.group d.target_version d.identity.resource t).0 ≡ r
      → Grown c d want (resolved c p json now d want (r, u)).0
  unfolding resolved
  resolved-Grown d want t u (err e) h = inl refl
  resolved-Grown d want t u (ok gvr) h = inr (_, t, refl, h)

  unless_done_ok :
      {A : Type 0} {a : A} {u : Controller W}
      (body : Controller W → Result Failure A × Controller W) (o : Option Failure)
      (s : Controller W)
      → unless_done c p json now body (o, s) ≡ (ok a, u)
      → body s ≡ (ok a, u)
  unless_done_ok body none s h = h
  unless_done_ok {A} body (some e) s h = cc (ap (λ (x : Result Failure A × Controller W). x.0) h)

  -- The loop over the listed desires, when it comes to its end, has seen each of them.
  pub gather-Collected :
      (ds : List ReadDesire) (before after : Sets) (s u : Controller W)
      → gather c p json now ds before s ≡ (ok after, u)
      → Collected c ds before after
  unfolding gather call
  gather-Collected [] before after s u h =
      subst (λ x. Collected c [] before x) (ok_eq (ap (λ x. x.0) h)) (Collected-nothing c before)
  gather-Collected (d ∷ ds) (seen, want) after s u h =
      let t : Controller W = record s { world = (c.ctx_err s.world).1 } in
      Collected-step c d ds seen want _ after (resolved-Grown d want t _ _ refl)
        (gather-Collected ds _ after _ u (unless_done_ok _ (c.ctx_err s.world).0 t h))

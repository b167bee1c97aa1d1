-- ===== src/Controllers/ReadDesire/Stopped.antt =====
-- Which informers the first loop of Reconcile stops
-- (internal/controllers/readdesire/informer_manager.go).
use hyperfleet_applier.Base.{
  ◌≡◌, ◌≢◌, ◌↔◌, inl, inr, refl, sym, ◌∙◌, ap, true, false, Option, none, some, [], ◌∷◌, Bool-cases,
  arith,
}
use hyperfleet_applier.Base.Text.{text_Eq, text_eq_iff}
use hyperfleet_applier.Base.Dict.{
  Dict, lookup, lookup-remove_self, lookup-remove_ne, lookup_skip, lookup-empty,
}
use hyperfleet_applier.Desire.Types.{Identity, identity_Eq, identity_eq, identity_eq_iff}
use hyperfleet_applier.Controllers.ReadDesire.Informers.{
  Gvr, TrackedInformer, InformerManager, stop_informer, stop_unless, stop_unseen, gvr_eq,
}

pub gvr_eq_iff : (a b : Gvr) → (gvr_eq a b ≡ true) ↔ (a ≡ b)
unfolding gvr_eq
gvr_eq_iff a b = (
  λ h. ground (
    arith,
    text_eq_iff a.group b.group,
    text_eq_iff a.version b.version,
    text_eq_iff a.resource b.resource,
  ),
  λ h. ground (
    arith,
    ap (λ (g : Gvr). g) h,
    text_eq_iff a.group b.group,
    text_eq_iff a.version b.version,
    text_eq_iff a.resource b.resource,
  ),
)

pub key_ne : (key j : Identity) → identity_eq key j ≡ false → key ≢ j
key_ne key j n e = cc (sym n ∙ (identity_eq_iff key j).1 e)

stop_unless-other :
    (o : Option (Unit {0})) (key j : Identity) (ti : TrackedInformer) (m : InformerManager)
    → key ≢ j
    → lookup j (stop_unless o key ti m).informers ≡ lookup j m.informers
unfolding stop_unless stop_informer
stop_unless-other none key j ti m n = lookup-remove_ne key j m.informers n
stop_unless-other (some _) key j ti m n = refl

stop_unless-some :
    (o : Option (Unit {0})) {u : Unit {0}} (key : Identity) (ti : TrackedInformer)
    (m : InformerManager)
    → o ≡ some u
    → stop_unless o key ti m ≡ m
unfolding stop_unless
stop_unless-some none key ti m h = cc
stop_unless-some (some _) key ti m h = refl

stop_unless-none :
    (o : Option (Unit {0})) (key : Identity) (ti : TrackedInformer) (m : InformerManager)
    → o ≡ none
    → lookup key (stop_unless o key ti m).informers ≡ none
unfolding stop_unless stop_informer
stop_unless-none none key ti m h = lookup-remove_self key m.informers
stop_unless-none (some _) key ti m h = cc

pub stop_unseen-seen :
    (seen : Dict Identity (Unit {0})) (rest : Dict Identity TrackedInformer) (m : InformerManager)
    (j : Identity) {u : Unit {0}}
    → lookup j seen ≡ some u
    → lookup j (stop_unseen seen rest m).informers ≡ lookup j m.informers
unfolding stop_unseen
stop_unseen-seen seen [] m j h = refl
stop_unseen-seen seen ((key, ti) ∷ rest) m j h =
    stop_unseen-seen seen rest (stop_unless (lookup key seen) key ti m) j h
    ∙ elim (Bool-cases (identity_eq key j)) [
      | inl y ↦
          let e = (identity_eq_iff key j).0 y in
          ap (λ (x : InformerManager). lookup j x.informers)
            (stop_unless-some (lookup key seen) key ti m (ap (λ i. lookup i seen) e ∙ h))
      | inr o ↦ stop_unless-other (lookup key seen) key j ti m (key_ne key j o)
    ]

pub stop_unseen-unseen :
    (seen : Dict Identity (Unit {0})) (rest : Dict Identity TrackedInformer) (m : InformerManager)
    (j : Identity)
    → lookup j seen ≡ none
    → (lookup j rest ≡ none → lookup j m.informers ≡ none)
    → lookup j (stop_unseen seen rest m).informers ≡ none
unfolding stop_unseen
stop_unseen-unseen seen [] m j h k = k (lookup-empty j)
stop_unseen-unseen seen ((key, ti) ∷ rest) m j h k =
    stop_unseen-unseen seen rest (stop_unless (lookup key seen) key ti m) j h λ q.
      elim (Bool-cases (identity_eq key j)) [
        | inl y ↦
            let e = (identity_eq_iff key j).0 y in
            ap (λ i. lookup i (stop_unless (lookup key seen) key ti m).informers) (sym e)
            ∙ stop_unless-none (lookup key seen) key ti m (ap (λ i. lookup i seen) e ∙ h)
        | inr o ↦
            stop_unless-other (lookup key seen) key j ti m (key_ne key j o)
            ∙ k (lookup_skip key j ti rest o ∙ q)
      ]

-- ===== src/Controllers/ReadDesire/Shutdown.antt =====
-- The stop channels over a whole poll and at the shutdown
-- (internal/controllers/readdesire/informer_manager.go).
use hyperfleet_applier.Controllers.ReadDesire.Channels.{
  IsOnce, ensure_all-IsTracked, stop_informer-IsTracked, IsTracked, has,
}
use hyperfleet_applier.Base.Dict.{
  lookup_skip, lookup-empty, Dict, IsUnique, lookup, remove, lookup-remove_self, lookup-remove_ne,
  lookup-behind, lookup_head,
}
use hyperfleet_applier.Base.Text.{Text}
use hyperfleet_applier.Base.{
  ℕ, ◌<◌, ◌≡◌, inl, inr, refl, sym, ◌∙◌, ap, subst, true, Option, none, some, [], ◌∷◌, Bool-cases,
  arith,
}
use hyperfleet_applier.Desire.Types.{Identity, identity_Eq, identity_eq_iff, identity_eq}
use hyperfleet_applier.Controllers.ReadDesire.Informers.{
  InformerTarget, TrackedInformer, InformerManager, stop_informer, stop_unless, stop_unseen,
  reconcile, stop_all, shutdown_all, new_informer_manager,
}

-- `rest` is what is left of the entries of `m` that a loop ranges over
abbrev Covers : InformerManager → Dict Identity TrackedInformer → Type 0
Covers m rest =
    (key : Identity) (ti : TrackedInformer)
    → lookup key rest ≡ some ti
    → lookup key m.informers ≡ some ti

Covers-head :
    (key : Identity) (ti : TrackedInformer) (rest : Dict Identity TrackedInformer)
    (m : InformerManager)
    → Covers m ((key, ti) ∷ rest)
    → lookup key m.informers ≡ some ti
Covers-head key ti rest m c = c key ti (lookup_head key ti rest)

Covers-tail :
    (key : Identity) (ti : TrackedInformer) (rest : Dict Identity TrackedInformer)
    (m : InformerManager)
    → IsUnique ((key, ti) ∷ rest)
    → Covers m ((key, ti) ∷ rest)
    → Covers m rest
Covers-tail key ti rest m u c j tj h = c j tj (lookup-behind key j ti tj rest u.0 h)

Covers-stop :
    (key : Identity) (ti : TrackedInformer) (rest : Dict Identity TrackedInformer)
    (m : InformerManager)
    → IsUnique ((key, ti) ∷ rest)
    → Covers m ((key, ti) ∷ rest)
    → Covers (stop_informer key ti m) rest
unfolding stop_informer
Covers-stop key ti rest m u c j tj h =
    lookup-remove_ne key j m.informers (λ e. cc (sym u.0 ∙ ap (λ k. lookup k rest) e ∙ h))
    ∙ Covers-tail key ti rest m u c j tj h

stop_unless-IsTracked :
    (o : Option (Unit {0})) (key : Identity) (ti : TrackedInformer) (m : InformerManager)
    → lookup key m.informers ≡ some ti
    → IsTracked m
    → IsTracked (stop_unless o key ti m)
unfolding stop_unless
stop_unless-IsTracked none key ti m at v = stop_informer-IsTracked key ti m v at
stop_unless-IsTracked (some _) key ti m at v = v

stop_unless-Covers :
    (o : Option (Unit {0})) (key : Identity) (ti : TrackedInformer)
    (rest : Dict Identity TrackedInformer) (m : InformerManager)
    → IsUnique ((key, ti) ∷ rest)
    → Covers m ((key, ti) ∷ rest)
    → Covers (stop_unless o key ti m) rest
unfolding stop_unless
stop_unless-Covers none key ti rest m u c = Covers-stop key ti rest m u c
stop_unless-Covers (some _) key ti rest m u c = Covers-tail key ti rest m u c

stop_unseen-IsTracked :
    (seen : Dict Identity (Unit {0})) (rest : Dict Identity TrackedInformer) (m : InformerManager)
    → IsUnique rest
    → Covers m rest
    → IsTracked m
    → IsTracked (stop_unseen seen rest m)
unfolding stop_unseen
stop_unseen-IsTracked seen [] m u c v = v
stop_unseen-IsTracked seen ((key, ti) ∷ rest) m u c v =
    let o = lookup key seen in
    stop_unseen-IsTracked seen rest (stop_unless o key ti m) u.1
      (stop_unless-Covers o key ti rest m u c)
      (stop_unless-IsTracked o key ti m (Covers-head key ti rest m c) v)

-- A poll of the wanted informers keeps the accounting of stop channels: none is closed twice, none is
-- lost, and none that was closed belongs to an informer.
pub reconcile-IsTracked :
    (wire : Identity → InformerTarget → Option Text) (seen : Dict Identity (Unit {0}))
    (want : Dict Identity InformerTarget) (m : InformerManager)
    → IsTracked m
    → IsTracked (reconcile wire seen want m).1
unfolding reconcile
reconcile-IsTracked wire seen want m v =
    ensure_all-IsTracked wire want [] (stop_unseen seen m.informers m)
      (stop_unseen-IsTracked seen m.informers m v.unique (λ k ti h. h) v)

stop_all-IsTracked :
    (rest : Dict Identity TrackedInformer) (m : InformerManager)
    → IsUnique rest
    → Covers m rest
    → IsTracked m
    → IsTracked (stop_all rest m)
unfolding stop_all
stop_all-IsTracked [] m u c v = v
stop_all-IsTracked ((key, ti) ∷ rest) m u c v =
    stop_all-IsTracked rest (stop_informer key ti m) u.1 (Covers-stop key ti rest m u c)
      (stop_informer-IsTracked key ti m v (Covers-head key ti rest m c))

stop_all-lookup :
    (rest : Dict Identity TrackedInformer) (m : InformerManager) (j : Identity)
    → (lookup j rest ≡ none → lookup j m.informers ≡ none)
    → lookup j (stop_all rest m).informers ≡ none
unfolding stop_all stop_informer
stop_all-lookup [] m j h = h (lookup-empty j)
stop_all-lookup ((key, ti) ∷ rest) m j h = stop_all-lookup rest (stop_informer key ti m) j λ n.
    elim (Bool-cases (identity_eq key j)) [
      | inl y ↦
          subst (λ k. lookup k (remove key m.informers) ≡ none) ((identity_eq_iff key j).0 y)
            (lookup-remove_self key m.informers)
      | inr o ↦
          lookup-remove_ne key j m.informers (λ e. cc (sym o ∙ (identity_eq_iff key j).1 e))
          ∙ h (lookup_skip key j ti rest o ∙ n)
    ]

stop_all-next :
    (rest : Dict Identity TrackedInformer) (m : InformerManager)
    → (stop_all rest m).next_ch ≡ m.next_ch
unfolding stop_all stop_informer
stop_all-next [] m = refl
stop_all-next ((key, ti) ∷ rest) m = stop_all-next rest _

pub new_informer_manager-IsTracked : IsTracked new_informer_manager
unfolding new_informer_manager
new_informer_manager-IsTracked = record {
  unique = tt;
  given = λ key ti h. cc (lookup-empty {V = TrackedInformer} key);
  live = λ key ti h. refl;
  apart = λ i j ta tb h k e. cc (lookup-empty {V = TrackedInformer} i);
  closed_once = tt;
  closed_given = λ n h. cc;
  accounted = λ n h. absurd (omega arith);
}

pub shutdown_all-closed :
    (m : InformerManager) (n : ℕ)
    → IsTracked m
    → n < m.next_ch
    → (has n (shutdown_all m).closed ≡ true)
      × IsOnce (shutdown_all m).closed
      × ((key : Identity) → lookup key (shutdown_all m).informers ≡ none)
unfolding shutdown_all
shutdown_all-closed m n v h =
    let w : IsTracked (stop_all m.informers m) =
      stop_all-IsTracked m.informers m v.unique (λ k ti q. q) v in
    let gone : (key : Identity) → lookup key (stop_all m.informers m).informers ≡ none =
      λ key. stop_all-lookup m.informers m key (λ q. q) in
    (
      elim (w.accounted n (subst (λ k. n < k) (sym (stop_all-next m.informers m)) h)) [
        | inl c ↦ c
        | inr (key, ti, at, _) ↦ cc (sym (gone key) ∙ at)
      ],
      w.closed_once,
      gone,
    )

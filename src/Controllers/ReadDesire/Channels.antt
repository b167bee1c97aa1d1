-- ===== src/Controllers/ReadDesire/Channels.antt =====
-- The stop channels of internal/controllers/readdesire/informer_manager.go: which are open, and which
-- were closed.
use hyperfleet_applier.Base.Dict.{
  lookup-insert_cases, Dict, IsUnique, lookup, insert, remove-IsUnique, insert-IsUnique,
  lookup-insert_self, lookup-remove_self, lookup-remove-some, lookup-insert_ne, lookup-remove_ne,
}
use hyperfleet_applier.Base.Text.{Text}
use hyperfleet_applier.Base.{
  ℕ, ◌+◌, ◌<◌, ◌≡◌, ◌⊎◌, inl, inr, refl, sym, ◌∙◌, ap, subst, Bool, true, false, Option, none, some,
  List, [], ◌∷◌, if◌then◌else◌, eqb, eqb_iff, Bool-cases, arith,
}
use hyperfleet_applier.Desire.Types.{Identity, identity_Eq}
use hyperfleet_applier.Controllers.ReadDesire.Informers.{
  InformerTarget, TrackedInformer, InformerManager, stop_informer, start, wired, ensure_from,
  ensure, ensure_all, note_failure, gvr_eq,
}

abbrev pub has : ℕ → List ℕ → Bool
has n [] = false
has n (c ∷ cs) = let rest = has n cs in if eqb c n then true else rest

-- no channel is closed twice
abbrev pub IsOnce : List ℕ → Type 0
IsOnce [] = Unit
IsOnce (c ∷ cs) = (has c cs ≡ false) × IsOnce cs

-- Every key has one informer, two informers have two channels, and a channel that was given out is
-- either the open one of an informer or was closed, exactly once.
pub record IsTracked (m : InformerManager) : Type 0 where
  pub unique : IsUnique m.informers
  pub given :
      (key : Identity) (ti : TrackedInformer)
      → lookup key m.informers ≡ some ti
      → ti.stop_ch < m.next_ch
  pub live :
      (key : Identity) (ti : TrackedInformer)
      → lookup key m.informers ≡ some ti
      → has ti.stop_ch m.closed ≡ false
  pub apart :
      (i j : Identity) (ti tj : TrackedInformer)
      → lookup i m.informers ≡ some ti
      → lookup j m.informers ≡ some tj
      → ti.stop_ch ≡ tj.stop_ch
      → i ≡ j
  pub closed_once : IsOnce m.closed
  pub closed_given : (n : ℕ) → has n m.closed ≡ true → n < m.next_ch
  pub accounted :
      (n : ℕ)
      → n < m.next_ch
      → (has n m.closed ≡ true)
        ⊎ ((key : Identity) × (ti : TrackedInformer) × (lookup key m.informers ≡ some ti)
            × (ti.stop_ch ≡ n))

module _ (key : Identity) (ti : TrackedInformer) (m : InformerManager) (v : IsTracked m)
    (at : lookup key m.informers ≡ some ti) where
  pub stop_informer-IsTracked : IsTracked (stop_informer key ti m)
  unfolding stop_informer
  stop_informer-IsTracked = record {
    unique = remove-IsUnique key m.informers v.unique;
    given = λ j tj h. v.given j tj (lookup-remove-some key j tj m.informers h).1;
    live = λ j tj h.
        let (n, was) = lookup-remove-some key j tj m.informers h in
        elim (Bool-cases (eqb ti.stop_ch tj.stop_ch)) [
          | inl y ↦ absurd (n (v.apart key j ti tj at was ((eqb_iff _ _).0 y)))
          | inr o ↦ rw o (v.live j tj was)
        ];
    apart = λ i j ta tb h k e.
        v.apart i j ta tb (lookup-remove-some key i ta m.informers h).1
          (lookup-remove-some key j tb m.informers k).1 e;
    closed_once = (v.live key ti at, v.closed_once);
    closed_given = λ n h. elim (Bool-cases (eqb ti.stop_ch n)) [
      | inl y ↦ subst (λ k. k < m.next_ch) ((eqb_iff _ _).0 y) (v.given key ti at)
      | inr o ↦ v.closed_given n (rw o at h)
    ];
    accounted = λ n h. elim (Bool-cases (eqb ti.stop_ch n)) [
      | inl y ↦ inl (rw y)
      | inr o ↦ elim (v.accounted n h) [
        | inl c ↦ inl (rw o c)
        | inr (j, tj, was, e) ↦ inr (
          j,
          tj,
          lookup-remove_ne key j m.informers (λ q. other_channel n o j tj was e q) ∙ was,
          e,
        )
      ]
    ];
  }
    where
      other_channel :
          (n : ℕ)
          → eqb ti.stop_ch n ≡ false
          → (j : Identity) (tj : TrackedInformer) → lookup j m.informers ≡ some tj
          → tj.stop_ch ≡ n
          → key ≡ j
          → ⊥
      other_channel n o j tj was e q =
          let same : ti ≡ tj = cc (sym at ∙ ap (λ k. lookup k m.informers) q ∙ was) in
          cc (sym o ∙ (eqb_iff ti.stop_ch n).1 (ap (λ (t : TrackedInformer). t.stop_ch) same ∙ e))

pub stop_informer-gone :
    (key : Identity) (ti : TrackedInformer) (m : InformerManager)
    → lookup key (stop_informer key ti m).informers ≡ none
unfolding stop_informer
stop_informer-gone key ti m = lookup-remove_self key m.informers

module _ (wire : Identity → InformerTarget → Option Text) (key : Identity) (target : InformerTarget)
    (m : InformerManager) (v : IsTracked m) (at : lookup key m.informers ≡ none) where
  abbrev fresh : TrackedInformer
  fresh = record { stop_ch = m.next_ch; gvr = target.gvr }

  -- the manager after a successful start
  abbrev started : InformerManager
  started = record m { informers = insert key fresh m.informers; next_ch = m.next_ch + 1 }

  -- an informer after the start is the new one or an old one
  new_or_old :
      (j : Identity) (tj : TrackedInformer)
      → lookup j started.informers ≡ some tj
      → ((key ≡ j) × (fresh ≡ tj)) ⊎ (lookup j m.informers ≡ some tj)
  new_or_old j tj h = lookup-insert_cases key j fresh tj m.informers h

  not_given : (n : ℕ) → n ≡ m.next_ch → has n m.closed ≡ false
  not_given n e = elim (Bool-cases (has n m.closed)) [
    | inl y ↦ absurd (omega (arith, v.closed_given n y))
    | inr o ↦ o
  ]

  started-IsTracked : IsTracked started
  started-IsTracked = record {
    unique = insert-IsUnique key fresh m.informers v.unique;
    given = λ j tj h. elim (new_or_old j tj h) [
      | inl (_, e) ↦ rw (← e) (omega arith)
      | inr was ↦ omega (arith, v.given j tj was)
    ];
    live = λ j tj h. elim (new_or_old j tj h) [
      | inl (_, e) ↦ not_given tj.stop_ch (ap (λ (t : TrackedInformer). t.stop_ch) (sym e))
      | inr was ↦ v.live j tj was
    ];
    apart = λ i j ta tb h k e. elim (new_or_old i ta h) [
      | inl (p, q) ↦ elim (new_or_old j tb k) [
        | inl (p', q') ↦ sym p ∙ p'
        | inr was ↦
            absurd (omega (arith, v.given j tb was, ap (λ (t : TrackedInformer). t.stop_ch) q, e))
      ]
      | inr was ↦ elim (new_or_old j tb k) [
        | inl (p', q') ↦
            absurd (omega (arith, v.given i ta was, ap (λ (t : TrackedInformer). t.stop_ch) q', e))
        | inr was' ↦ v.apart i j ta tb was was' e
      ]
    ];
    closed_once = v.closed_once;
    closed_given = λ n h. omega (arith, v.closed_given n h);
    accounted = λ n h. elim (Bool-cases (eqb n m.next_ch)) [
      | inl y ↦
          inr
            (key, fresh, lookup-insert_self key fresh m.informers, sym ((eqb_iff n m.next_ch).0 y))
      | inr o ↦ elim (v.accounted n (ground (arith, h, o))) [
        | inl c ↦ inl c
        | inr (j, tj, was, e) ↦ inr (
          j,
          tj,
          lookup-insert_ne key j fresh m.informers
                (λ q. cc (sym at ∙ ap (λ k. lookup k m.informers) q ∙ was))
              ∙ was,
          e,
        )
      ]
    ];
  }

  wired-IsTracked : (o : Option Text) → IsTracked (wired key target m o).1
  unfolding wired
  wired-IsTracked none = started-IsTracked
  wired-IsTracked (some e) = v

  pub start-IsTracked : IsTracked (start wire key target m).1
  unfolding start
  start-IsTracked = wired-IsTracked (wire key target)

module _ (wire : Identity → InformerTarget → Option Text) where
  note_failure-IsTracked :
      (key : Identity) (x : Option Text × InformerManager) (failed : Dict Identity Text)
      → IsTracked x.1
      → IsTracked (note_failure wire key x failed).1
  note_failure-IsTracked key (none, m) failed v = v
  note_failure-IsTracked key (some e, m) failed v = v

  ensure_from-IsTracked :
      (key : Identity) (target : InformerTarget) (failed : Dict Identity Text) (m : InformerManager)
      (o : Option TrackedInformer)
      → lookup key m.informers ≡ o
      → IsTracked m
      → IsTracked (ensure_from wire key target failed m o).1
  unfolding ensure_from
  ensure_from-IsTracked key target failed m none at v =
      note_failure-IsTracked key _ failed (start-IsTracked wire key target m v at)
  ensure_from-IsTracked key target failed m (some ti) at v =
      elim (Bool-cases (gvr_eq ti.gvr target.gvr)) [
        | inl y ↦ rw y v
        | inr n ↦ rw n (
            note_failure-IsTracked key _ failed (
              start-IsTracked wire key target (stop_informer key ti m)
                (stop_informer-IsTracked key ti m v at) (stop_informer-gone key ti m)))
      ]

  pub ensure_all-IsTracked :
      (want : Dict Identity InformerTarget) (failed : Dict Identity Text) (m : InformerManager)
      → IsTracked m
      → IsTracked (ensure_all wire want (failed, m)).1
  unfolding ensure_all ensure
  ensure_all-IsTracked [] failed m v = v
  ensure_all-IsTracked ((key, target) ∷ rest) failed m v =
      ensure_all-IsTracked rest _ _ (ensure_from-IsTracked key target failed m _ refl v)

-- ===== src/Leadership/Exit.antt =====
-- When the Lease is handed over and what Start returns (internal/leadership/runnable.go).
use hyperfleet_applier.Base.{
  ap, ◌∙◌, sym, ◌≢◌, ◌≡◌, ◌⊎◌, ◌↔◌, inl, inr, refl, Bool-cases, ℕ, Bool, true, false, Option, none,
  some, List, [], ◌∷◌, ◌==◌,
}
use hyperfleet_applier.Leadership.Handover.{
  joined, ExitError, handed_over, LeaseRecord, elector_returned, exit_with, release_lease,
  release_read, LeaseLock, run_controllers,
}
use hyperfleet_applier.Controllers.Cluster.{Failure}
use hyperfleet_applier.Base.Text.{Text, text_Eq, text_eq_iff}
use hyperfleet_applier.Base.Result.{Result, ok, err}

-- a lock whose world also has the records that Update was called with, the latest first
abbrev pub logged : {V : Type 0} → LeaseLock V → LeaseLock (V × List LeaseRecord)
logged lock = record {
  get = λ w. let (r, v) = lock.get w.0 in (r, (v, w.1));
  update = λ rec w. let (r, v) = lock.update rec w.0 in (r, (v, rec ∷ w.1));
  identity = lock.identity;
  ctx_err = λ w. let (e, v) = lock.ctx_err w.0 in (e, (v, w.1));
}

-- every runnable's Start gave nil
abbrev pub IsQuiet : List (Option Failure) → Type 0
IsQuiet [] = Unit
IsQuiet (o ∷ rest) = (o ≡ none) × IsQuiet rest

run_controllers_iff :
    (results : List (Option Failure)) → (joined (run_controllers results) ≡ none) ↔ IsQuiet results
unfolding run_controllers
run_controllers_iff [] = (λ h. tt, λ h. refl)
run_controllers_iff (none ∷ rest) =
    let ih = run_controllers_iff rest in (λ h. (refl, ih.0 h), λ h. ih.1 h.1)
run_controllers_iff (some e ∷ rest) = (λ h. cc, λ h. cc (h.0))

module _ {V : Type 0} (lock : LeaseLock V) (now : ℕ) where
  -- What releaseLease does from a state: it reads no record that names this replica, and writes nothing;
  -- or it reads one, and writes one record that has no holder, lasts one second from now, and has the
  -- transitions of the record that was read.
  abbrev pub IsReleased : V → List LeaseRecord → List LeaseRecord → Type 0
  IsReleased before log after =
      ((after ≡ log)
        × ((rec : LeaseRecord)
            → (lock.get before).0 ≡ ok rec
            → rec.holder_identity ≢ lock.identity))
      ⊎ ((sent rec : LeaseRecord) × ((lock.get before).0 ≡ ok rec)
          × (rec.holder_identity ≡ lock.identity)
          × (sent.holder_identity ≡ [])
          × (sent.lease_duration_seconds ≡ 1)
          × (sent.acquire_time ≡ now)
          × (sent.renew_time ≡ now)
          × (sent.leader_transitions ≡ rec.leader_transitions)
          × (after ≡ sent ∷ log))

  -- Nothing is written, where the replica has never led, or where the context goes on and every runnable
  -- returned nil; the Lease is released otherwise.
  abbrev pub HandedOver :
      Bool
      → List (Option Failure)
      → Option Failure × V
      → List LeaseRecord
      → List LeaseRecord
      → Type 0
  HandedOver ever results (o, before) log after =
      ((after ≡ log) × ((ever ≡ false) ⊎ ((o ≡ none) × IsQuiet results)))
      ⊎ ((ever ≡ true) × ((o ≢ none) ⊎ (IsQuiet results → ⊥)) × IsReleased before log after)

  release_read-IsReleased :
      (r : Result Text LeaseRecord) (before v : V) (log : List LeaseRecord)
      → (lock.get before).0 ≡ r
      → IsReleased before log (release_read (logged lock) now (r, (v, log))).1
  unfolding release_read handed_over
  release_read-IsReleased (err e) before v log h = inl (refl, λ rec k. cc)
  release_read-IsReleased (ok rec) before v log h =
      let test = text_eq_iff rec.holder_identity lock.identity in
      elim (Bool-cases (rec.holder_identity == lock.identity)) [
        | inl y ↦
            rw y (inr (handed_over now rec, rec, h, test.0 y, refl, refl, refl, refl, refl, refl))
        | inr n ↦ rw n (
            inl (
              refl,
              λ other k named.
                  let same : rec ≡ other = cc (sym h ∙ k) in
                  cc (sym n ∙ test.1 (ap (λ x. x.holder_identity) same ∙ named)),
            ))
      ]

  led-HandedOver :
      (results : List (Option Failure)) (e : Option ExitError)
      → joined (run_controllers results) ≡ e
      → (o : Option Failure) (v : V) (log : List LeaseRecord)
      → HandedOver true results (o, v) log (exit_with (logged lock) now true e (o, (v, log))).1.1
  unfolding exit_with release_lease
  led-HandedOver results e h (some x) v log =
      inr (refl, inl (λ q. cc q), release_read-IsReleased _ v _ log refl)
  led-HandedOver results (some e) h none v log = inr (
    refl,
    inr (λ q. cc (sym h ∙ (run_controllers_iff results).1 q)),
    release_read-IsReleased _ v _ log refl,
  )
  led-HandedOver results none h none v log =
      inl (refl, inr (refl, (run_controllers_iff results).0 h))

  stood_by-HandedOver :
      (results : List (Option Failure)) (o : Option Failure) (v : V) (log : List LeaseRecord)
      → HandedOver false results
          (o, v)
          log
          (exit_with (logged lock) now false none (o, (v, log))).1.1
  unfolding exit_with release_lease
  stood_by-HandedOver results (some x) v log = inl (refl, inl refl)
  stood_by-HandedOver results none v log = inl (refl, inl refl)

  -- At its exit Start updates the Lease exactly if it was ever written, the parent context has ended or a
  -- runnable has failed, and a read of the Lease then names this replica as the holder. It updates it
  -- once, and the record has no holder, a duration of one second, both times now, and the count of
  -- transitions that was read.
  pub elector_returned-HandedOver :
      (ever : Bool) (results : List (Option Failure)) (v : V) (log : List LeaseRecord)
      → HandedOver ever results
          (lock.ctx_err v)
          log
          (elector_returned (logged lock) now ever results (v, log)).1.1
  unfolding elector_returned
  elector_returned-HandedOver true results v log =
      led-HandedOver results _ refl (lock.ctx_err v).0 (lock.ctx_err v).1 log
  elector_returned-HandedOver false results v log =
      stood_by-HandedOver results (lock.ctx_err v).0 (lock.ctx_err v).1 log

module _ {W : Type 0} (lock : LeaseLock W) (now : ℕ) where
  exit_with_iff :
      (ever : Bool) (e : Option ExitError) (o : Option Failure) (w : W)
      → ((exit_with lock now ever e (o, w)).0 ≡ none) ↔ ((o ≢ none) × (e ≡ none))
  unfolding exit_with
  exit_with_iff ever e (some x) w = (λ h. (λ q. cc, h), λ h. h.1)
  exit_with_iff ever (some e) none w = (λ h. cc, λ h. cc (h.1))
  exit_with_iff ever none none w = (λ h. cc, λ h. absurd (h.0 refl))

  -- Once the elector has returned, Start returns nil exactly if the parent context has ended by then and,
  -- where the Lease was ever written, every runnable returned nil.
  pub elector_returned_iff :
      (ever : Bool) (results : List (Option Failure)) (w : W)
      → ((elector_returned lock now ever results w).0 ≡ none)
        ↔ (((lock.ctx_err w).0 ≢ none) × ((ever ≡ false) ⊎ IsQuiet results))
  unfolding elector_returned
  elector_returned_iff false results w =
      let i = exit_with_iff false none (lock.ctx_err w).0 (lock.ctx_err w).1 in
      (λ h. ((i.0 h).0, inl refl), λ h. i.1 (h.0, refl))
  elector_returned_iff true results w =
      let i =
        exit_with_iff true (joined (run_controllers results)) (lock.ctx_err w).0
          (lock.ctx_err w).1 in
      let q = run_controllers_iff results in
      (
        λ h. ((i.0 h).0, inr (q.0 (i.0 h).1)),
        λ h. i.1 (h.0, elim h.1 [ inl f ↦ cc f | inr k ↦ q.1 k ]),
      )

-- ===== src/Redis/Retry.antt =====
-- The retry loop of the Redis store: when it succeeds, when it gives up, and that a success is one
-- atomic step.
use hyperfleet_applier.Base.{
  inr, inl, ◌⊎◌, ap, ℕ, zero, suc, ◌+◌, ◌*◌, ◌<◌, ◌≡◌, refl, sym, ◌∙◌, Option, none, some, List,
  arith,
}
use hyperfleet_applier.Redis.Cas.{
  cas_noop, fail, pause, Stop, settle, commit, run_body, Body, Watched, done, noop, conflict,
  broken, watch, retry_from, watch_retry, max_cas_retries, cas_base_delay,
}
use hyperfleet_applier.Redis.Client.{tx_failed, exec_error, Outcome, Command, Client, committed}
use hyperfleet_applier.Base.Text.{Text}
use hyperfleet_applier.Base.Result.{Result, ok, err}
use hyperfleet_applier.Desire.Validate.{Error, aborted}

module _ {A : Type 0} where
  noop_done : {a : A} → ◌≡◌ {A = Watched A} noop (done a) → ⊥
  noop_done h = cc

  broken_done : {a : A} (e : Error) → ◌≡◌ {A = Watched A} (broken e) (done a) → ⊥
  broken_done e h = cc

  ok_some : {a b : A} → ◌≡◌ {A = Result Error (Option A)} (ok (some a)) (ok (some b)) → a ≡ b
  ok_some h = cc

  none_ok : {a : A} → ◌≡◌ {A = Result Error (Option A)} (ok none) (ok (some a)) → ⊥
  none_ok h = cc

  err_ok : {e : Error} {a : Option A} → ◌≡◌ {A = Result Error (Option A)} (err e) (ok a) → ⊥
  err_ok h = cc

module _ {R A : Type 0} (c : Client R) (body : Body A) (keys : List Text) where
  -- `n` attempts in a row, from the attempt of this number on, lose to another client and wait
  pub data Conflicts : ℕ → ℕ → R → R → Type 0 where
    here : {k : ℕ} {r : R} → Conflicts zero k r r
    lost :
        {n k : ℕ} {r r' u t : R}
        → watch c body keys r ≡ (conflict, r')
        → c.wait (cas_base_delay * k) r' ≡ (none, u)
        → Conflicts n (k + 1) u t
        → Conflicts (suc n) k r t

  retry_lost :
      (left k : ℕ) (r r' u : R)
      → watch c body keys r ≡ (conflict, r')
      → c.wait (cas_base_delay * k) r' ≡ (none, u)
      → retry_from c (suc left) k body keys r ≡ retry_from c left (k + 1) body keys u
  unfolding retry_from
  retry_lost left k r r' u e q =
      ap
        (λ w.
          settle c w λ r'.
            pause c (c.wait (cas_base_delay * k) r') λ u. retry_from c left (k + 1) body keys u)
        e
      ∙ ap (λ w. pause c w λ u. retry_from c left (k + 1) body keys u) q

  retry_done :
      (left k : ℕ) (r t : R) (a : A)
      → watch c body keys r ≡ (done a, t)
      → retry_from c (suc left) k body keys r ≡ (ok (some a), t)
  unfolding retry_from
  retry_done left k r t a e =
      ap
        (λ w.
          settle c w λ r'.
            pause c (c.wait (cas_base_delay * k) r') λ u. retry_from c left (k + 1) body keys u)
        e

  -- An attempt after fewer conflicts than there are attempts.
  retry_after :
      (n left k : ℕ) (r u t : R) (a : A)
      → Conflicts n k r u
      → n < left
      → watch c body keys u ≡ (done a, t)
      → retry_from c left k body keys r ≡ (ok (some a), t)
  retry_after n zero k r u t a cs h w = absurd (omega arith)
  retry_after zero (suc left) k r u t a here h w = retry_done left k r t a w
  retry_after (suc n) (suc left) k r u t a (lost {r' = r'} {u = v} e q cs) h w =
      retry_lost left k r r' v e q ∙ retry_after n left (k + 1) v u t a cs (omega arith) w

  -- With no attempt left the loop gives up.
  retry_exhausted :
      (n k : ℕ) (r u : R) → Conflicts n k r u → retry_from c n k body keys r ≡ (err aborted, u)
  unfolding retry_from
  retry_exhausted zero k r u here = refl
  retry_exhausted (suc n) k r u (lost {r' = r'} {u = v} e q cs) =
      retry_lost n k r r' v e q ∙ retry_exhausted n (k + 1) v u cs

  -- If fewer than sixteen attempts conflict, their waits are not cut short and the next attempt
  -- commits, then its value and the state that it left are the result of the loop.
  pub watch_retry-commits :
      (n : ℕ) (r u t : R) (a : A)
      → Conflicts n 1 r u
      → n < max_cas_retries
      → watch c body keys u ≡ (done a, t)
      → watch_retry c body keys r ≡ (ok (some a), t)
  unfolding watch_retry
  watch_retry-commits n r u t a cs h w = retry_after n max_cas_retries 1 r u t a cs h w

  -- If sixteen attempts in a row conflict and their waits are not cut short, the loop ends in ErrAborted.
  pub watch_retry-aborts :
      (r u : R) → Conflicts max_cas_retries 1 r u → watch_retry c body keys r ≡ (err aborted, u)
  unfolding watch_retry
  watch_retry-aborts r u cs = retry_exhausted max_cas_retries 1 r u cs

  -- a transaction of the loop that committed: what it read, what it queued, and its step
  pub record Committed (t : R) (a : A) : Type 0 where
    pub read_at : R
    pub commands : List Command
    pub decided : body (c.get read_at) ≡ ok (commands, a)
    pub stepped : c.exec keys commands read_at ≡ (committed, t)

  outcome_done : (x : Outcome) (a b : A) → commit c b x ≡ done a → (x ≡ committed) × (b ≡ a)
  unfolding commit
  outcome_done committed a b h = (refl, cc)
  outcome_done tx_failed a b h = cc
  outcome_done (exec_error e) a b h = cc

  run_body_done :
      (b : Result Stop (List Command × A)) (u t : R) (a : A)
      → run_body c keys b u ≡ (done a, t)
      → (cs : List Command) × (b ≡ ok (cs, a)) × (c.exec keys cs u ≡ (committed, t))
  unfolding run_body
  run_body_done (err cas_noop) u t a h = absurd (noop_done (ap (λ (x : Watched A × R). x.0) h))
  run_body_done (err (fail e)) u t a h = absurd (broken_done e (ap (λ (x : Watched A × R). x.0) h))
  run_body_done (ok (cs, b)) u t a h =
      let (x, y) = outcome_done (c.exec keys cs u).0 a b (ap (λ (x : Watched A × R). x.0) h) in
      (cs, ap (λ z. ok (cs, z)) y, λ i. (x i, (h i).1))

  settle_ok :
      (w : Watched A × R) (again : R → Result Error (Option A) × R) (t : R) (a : A)
      → settle c w again ≡ (ok (some a), t)
      → (w ≡ (done a, t)) ⊎ ((u : R) × (again u ≡ (ok (some a), t)))
  settle_ok (done b, r) again t a h =
      let e = ok_some (ap (λ (x : Result Error (Option A) × R). x.0) h) in
      inl (λ i. (done (e i), (h i).1))
  settle_ok (noop, r) again t a h =
      absurd (none_ok (ap (λ (x : Result Error (Option A) × R). x.0) h))
  settle_ok (conflict, r) again t a h = inr (r, h)
  settle_ok (broken e, r) again t a h =
      absurd (err_ok (ap (λ (x : Result Error (Option A) × R). x.0) h))

  pause_ok :
      (w : Option Error × R) (again : R → Result Error (Option A) × R) (t : R) (a : A)
      → pause c w again ≡ (ok (some a), t)
      → (u : R) × (again u ≡ (ok (some a), t))
  pause_ok (none, r) again t a h = (r, h)
  pause_ok (some e, r) again t a h =
      absurd (err_ok (ap (λ (x : Result Error (Option A) × R). x.0) h))

  retry-Committed :
      (left k : ℕ) (r t : R) (a : A)
      → retry_from c left k body keys r ≡ (ok (some a), t)
      → Committed t a
  unfolding retry_from watch
  retry-Committed zero k r t a h = absurd (err_ok (ap (λ (x : Result Error (Option A) × R). x.0) h))
  retry-Committed (suc left) k r t a h = elim (settle_ok _ _ t a h) [
    | inl w ↦
        let (cs, decided, stepped) = run_body_done (body (c.get r)) r t a w in
        record { read_at = r; commands = cs; decided = decided; stepped = stepped }
    | inr (r', q) ↦
        let (u, z) = pause_ok (c.wait (cas_base_delay * k) r') _ t a q in
        retry-Committed left (k + 1) u t a z
  ]

  -- A loop that returns a value committed one transaction: the body decided on that value, and on the
  -- commands that the commit ran, from what the keys held in the state that the commit stepped from.
  pub watch_retry_ok :
      (r t : R) (a : A) → watch_retry c body keys r ≡ (ok (some a), t) → Committed t a
  unfolding watch_retry
  watch_retry_ok r t a h = retry-Committed max_cas_retries 1 r t a h

  settle-none :
      (w : Watched A × R) (again : R → Result Error (Option A) × R) (t : R)
      → settle c w again ≡ (ok none, t)
      → (w.0 ≡ noop) ⊎ ((u : R) × (again u ≡ (ok none, t)))
  settle-none (done b, r) again t h =
      absurd (none_ok (sym (ap (λ (x : Result Error (Option A) × R). x.0) h)))
  settle-none (noop, r) again t h = inl refl
  settle-none (conflict, r) again t h = inr (r, h)
  settle-none (broken e, r) again t h =
      absurd (err_ok (ap (λ (x : Result Error (Option A) × R). x.0) h))

  pause-none :
      (w : Option Error × R) (again : R → Result Error (Option A) × R) (t : R)
      → pause c w again ≡ (ok none, t)
      → (u : R) × (again u ≡ (ok none, t))
  pause-none (none, r) again t h = (r, h)
  pause-none (some e, r) again t h =
      absurd (err_ok (ap (λ (x : Result Error (Option A) × R). x.0) h))

  run_body_noop :
      (b : Result Stop (List Command × A)) (u : R)
      → (run_body c keys b u).0 ≡ noop
      → b ≡ err cas_noop
  unfolding run_body commit
  run_body_noop (err cas_noop) u h = refl
  run_body_noop (err (fail e)) u h = cc
  run_body_noop (ok (cs, b)) u h = absurd (commit_noop (c.exec keys cs u).0 b h)
    where
      commit_noop : (x : Outcome) (b : A) → commit c b x ≡ noop → ⊥
      commit_noop committed b h = cc
      commit_noop tx_failed b h = cc
      commit_noop (exec_error e) b h = cc

  retry_noop :
      (left k : ℕ) (r t : R)
      → retry_from c left k body keys r ≡ (ok none, t)
      → (u : R) × (body (c.get u) ≡ err cas_noop)
  unfolding retry_from watch
  retry_noop zero k r t h = absurd (err_ok (ap (λ (x : Result Error (Option A) × R). x.0) h))
  retry_noop (suc left) k r t h = elim (settle-none _ _ t h) [
    | inl w ↦ (r, run_body_noop (body (c.get r)) r w)
    | inr (r', q) ↦
        let (u, z) = pause-none (c.wait (cas_base_delay * k) r') _ t q in
        retry_noop left (k + 1) u t z
  ]

  -- The loop returns no value only where the body asked for nothing to be done.
  pub watch_retry_noop :
      (r t : R)
      → watch_retry c body keys r ≡ (ok none, t)
      → (u : R) × (body (c.get u) ≡ err cas_noop)
  unfolding watch_retry
  watch_retry_noop r t h = retry_noop max_cas_retries 1 r t h

-- ===== src/Leadership/Freshness.antt =====
-- When the gate of internal/leadership/runnable.go lets a controller write.
use hyperfleet_applier.Base.{
  Bool-cases, ℕ, ◌+◌, ◌≤◌, ◌<◌, ◌≡◌, ◌↔◌, true, some, List, [], ◌∷◌, ltb, arith, ◌⊎◌, inl, inr,
}
use hyperfleet_applier.Leadership.Lock.{
  mark_success, Write, write_lease, after_writes, max_duration, since_last_success, gate_can_write,
  remaining, write_timeout,
}

-- a write of the Lease succeeded, was issued after the zero time, and is at most `bound` old
abbrev pub Fresh : ℕ → ℕ → List Write → Type 0
Fresh bound now [] = ⊥
Fresh bound now (wr ∷ earlier) =
    ((wr.succeeded ≡ true) × (0 < wr.started) × (now ≤ wr.started + bound))
    ⊎ Fresh bound now earlier

Fresh-last :
    (bound now : ℕ) (ws : List Write)
    → Fresh bound now ws
    → (0 < after_writes ws) × (now ≤ after_writes ws + bound)
unfolding after_writes write_lease mark_success
Fresh-last bound now [] f = absurd f
Fresh-last bound now (wr ∷ ws) (inl (s, z, f)) = ground arith
Fresh-last bound now (wr ∷ ws) (inr f) = let h = Fresh-last bound now ws f in ground arith

last-Fresh :
    (bound now : ℕ) (ws : List Write)
    → 0 < after_writes ws
    → now ≤ after_writes ws + bound
    → Fresh bound now ws
unfolding after_writes write_lease mark_success
last-Fresh bound now [] z f = ground arith
last-Fresh bound now (wr ∷ ws) z f = elim (Bool-cases wr.succeeded) [
  | inl y ↦ elim (Bool-cases (ltb (after_writes ws) wr.started)) [
    | inl a ↦ inl (y, ground arith, ground arith)
    | inr b ↦ inr (last-Fresh bound now ws (ground arith) (ground arith))
  ]
  | inr n ↦ inr (last-Fresh bound now ws (ground arith) (ground arith))
]

-- The gate allows writes exactly if a write of the Lease succeeded that was issued at most `bound`
-- before now, in whatever order the writes were issued. The bound is below the largest duration.
pub gate_can_write_iff :
    (bound now : ℕ) (ws : List Write)
    → bound < max_duration
    → ((gate_can_write bound now (after_writes ws)).0 ≡ true) ↔ Fresh bound now ws
unfolding gate_can_write since_last_success
gate_can_write_iff bound now ws below = (
  λ h. last-Fresh bound now ws (ground arith) (ground arith),
  λ f. let (z, h) = Fresh-last bound now ws f in ground arith,
)

-- A request that starts when the gate allows it ends, by the timeout that it gets, within its own
-- timeout and at most `bound` after the last successful write of the Lease was issued. No write of the
-- Lease is issued later than now, and the bound is below the largest duration.
pub write_timeout_lem :
    (bound now timeout : ℕ) (ws : List Write)
    → bound < max_duration
    → after_writes ws ≤ now
    → (gate_can_write bound now (after_writes ws)).0 ≡ true
    → let left = remaining bound now (after_writes ws) in
      (now + write_timeout (some left) timeout ≤ now + timeout)
      × (now + write_timeout (some left) timeout ≤ after_writes ws + bound)
unfolding gate_can_write since_last_success remaining write_timeout
write_timeout_lem bound now timeout ws below past h = (ground arith, ground arith)

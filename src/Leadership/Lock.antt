-- ===== src/Leadership/Lock.antt =====
-- internal/leadership/runnable.go: trackingLock and staleGate, and the gate functions of
-- internal/reconciler/leadergate.go. A time is a number of nanoseconds on the monotonic clock, 0 the
-- zero time; the clock never runs backward, so a difference to an earlier time is not negative.
use hyperfleet_applier.Base.{
  ℕ, ◌-◌, ◌^◌, Bool, true, false, Option, none, some, List, [], ◌∷◌, if◌then◌else◌, ◌==◌, ltb,
  nat_eq,
}
use hyperfleet_applier.Base.Text.{text_Eq}

-- markSuccess: the lock keeps the latest issue time
unfoldable pub mark_success : ℕ → ℕ → ℕ
mark_success at last = if ltb last at then at else last

-- Create and Update issued at a time, with whether the Lease write succeeded
pub record Write : Type 0 where
  pub started : ℕ
  pub succeeded : Bool

unfoldable pub write_lease : Write → ℕ → ℕ
unfolding mark_success
write_lease wr last = if wr.succeeded then mark_success wr.started last else last

-- the writes of a lock, the latest first, from a lock that never succeeded
unfoldable pub after_writes : List Write → ℕ
unfolding write_lease
after_writes [] = 0
after_writes (wr ∷ earlier) = write_lease wr (after_writes earlier)

abbrev pub max_duration : ℕ
max_duration = 2 ^ 63 - 1

-- sinceLastSuccess
unfoldable pub since_last_success : ℕ → ℕ → ℕ
since_last_success now last = if last == 0 then max_duration else now - last

-- everSucceeded
unfoldable pub ever_succeeded : ℕ → Bool
ever_succeeded last = if last == 0 then false else true

-- staleGate.CanWrite: whether writes are allowed, and whether the run context is canceled
unfoldable pub gate_can_write : ℕ → ℕ → ℕ → Bool × Bool
unfolding since_last_success
gate_can_write bound now last =
    if ltb bound (since_last_success now last) then (false, true) else (true, false)

-- staleGate.Remaining, where 0 stands for a window that has passed
unfoldable pub remaining : ℕ → ℕ → ℕ → ℕ
unfolding since_last_success
remaining bound now last = bound - since_last_success now last

-- reconciler.WriteContext: the time that a request gets, capped by what is left on a gate
unfoldable pub write_timeout : Option ℕ → ℕ → ℕ
write_timeout none timeout = timeout
write_timeout (some left) timeout = if ltb left timeout then left else timeout

-- ===== src/Controllers/Serial.antt =====
-- internal/controllers/serial/controller.go: the reconcilers of a tick, one after the other. Each has a
-- name here, by which a log can tell them apart.
use hyperfleet_applier.Controllers.Cluster.{Failure}
use hyperfleet_applier.Base.{ℕ, zero, suc, Bool, true, false, Option, none, some, List, [], ◌∷◌}
use hyperfleet_applier.Base.Text.{Text}

-- reconciler.Reconcilable: RunOnce
pub record Reconcilable (W : Type 0) : Type 0 where
  pub name : Text
  pub run_once : W → Option Failure × W

module _ {W : Type 0} (ctx_err : W → Option Failure × W) where
  -- `if ctx.Err() != nil { return nil }`, and else what follows
  unfoldable pub unless_ended : (W → Bool × W) → Option Failure × W → Bool × W
  unless_ended next (some e, w) = (true, w)
  unless_ended next (none, w) = next w

  -- what follows RunOnce: the check after an error, and the one after the reconciler
  unfoldable pub ran : (W → Bool × W) → Option Failure × W → Bool × W
  unfolding unless_ended
  ran next (some e, w) = unless_ended (λ u. unless_ended next (ctx_err u)) (ctx_err w)
  ran next (none, w) = unless_ended next (ctx_err w)

  -- the loop over the reconcilers: whether Start returns
  unfoldable pub tick : List (Reconcilable W) → W → Bool × W
  unfolding ran unless_ended
  tick [] w = (false, w)
  tick (r ∷ rs) w = unless_ended (λ u. ran (λ t. tick rs t) (r.run_once u)) (ctx_err w)

  -- what follows a tick: the wait for the context's end or for the ticker
  unfoldable pub ticked : (W → Bool × W) → Bool × W → Bool × W
  unfolding unless_ended
  ticked next (true, w) = (true, w)
  ticked next (false, w) = unless_ended next (ctx_err w)

  -- Start, for a number of ticks: whether it has returned
  unfoldable pub start_ticks : ℕ → List (Reconcilable W) → W → Bool × W
  unfolding tick ticked
  start_ticks zero rs w = (false, w)
  start_ticks (suc n) rs w = ticked (λ t. start_ticks n rs t) (tick rs w)

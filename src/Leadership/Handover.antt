-- ===== src/Leadership/Handover.antt =====
-- How Runnable.Start of internal/leadership/runnable.go ends: the results of runControllers, the exit once
-- the elector has returned, and releaseLease. The elector, the Lease on the server and the context are
-- parameters over a state of the world.
use hyperfleet_applier.Controllers.Cluster.{Failure}
use hyperfleet_applier.Base.{
  ℕ, Bool, true, false, Option, none, some, List, [], ◌∷◌, if◌then◌else◌, ◌==◌,
}
use hyperfleet_applier.Base.Text.{Text, text_Eq}
use hyperfleet_applier.Base.Result.{Result, ok, err}

-- resourcelock.LeaderElectionRecord
pub record LeaseRecord : Type 0 where
  pub holder_identity : Text
  pub lease_duration_seconds : ℕ
  pub acquire_time : ℕ
  pub renew_time : ℕ
  pub leader_transitions : ℕ

-- Get and Update of the Lease's lock, its identity, and the parent's ctx.Err()
pub record LeaseLock (W : Type 0) : Type 0 where
  pub get : W → Result Text LeaseRecord × W
  pub update : LeaseRecord → W → Result Text (Unit {0}) × W
  pub identity : Text
  pub ctx_err : W → Option Failure × W

-- the errors that Start returns: those of the controllers, joined, or ErrLeadershipLost
pub data ExitError : Type 0 where
  controllers : Failure → List Failure → ExitError
  leadership_lost : ExitError

abbrev pub hand_over_lease_duration_seconds : ℕ
hand_over_lease_duration_seconds = 1

-- errors.Join of what the runnables' Start gave, in the order in which they ended
unfoldable pub run_controllers : List (Option Failure) → List Failure
run_controllers [] = []
run_controllers (none ∷ rest) = run_controllers rest
run_controllers (some e ∷ rest) = e ∷ run_controllers rest

abbrev pub joined : List Failure → Option ExitError
joined [] = none
joined (e ∷ es) = some (controllers e es)

-- the record that hands a Lease over
unfoldable pub handed_over : ℕ → LeaseRecord → LeaseRecord
handed_over now rec = record {
  holder_identity = [];
  lease_duration_seconds = hand_over_lease_duration_seconds;
  acquire_time = now;
  renew_time = now;
  leader_transitions = rec.leader_transitions;
}

module _ {W : Type 0} (lock : LeaseLock W) (now : ℕ) where
  -- releaseLease, once the Lease is read
  unfoldable pub release_read : Result Text LeaseRecord × W → W
  unfolding handed_over
  release_read (err e, w) = w
  release_read (ok rec, w) =
      if rec.holder_identity == lock.identity then (lock.update (handed_over now rec) w).1 else w

  unfoldable pub release_lease : Bool → W → W
  unfolding release_read
  release_lease ever_succeeded w = if ever_succeeded then release_read (lock.get w) else w

  -- the error of the controllers, which have run if the Lease was ever written
  abbrev pub drained : Bool → List (Option Failure) → Option ExitError
  unfolding run_controllers
  drained true results = joined (run_controllers results)
  drained false results = none

  -- the exit by whether the context has ended
  unfoldable pub exit_with : Bool → Option ExitError → Option Failure × W → Option ExitError × W
  unfolding release_lease
  exit_with ever_succeeded controller_err (some e, w) =
      (controller_err, release_lease ever_succeeded w)
  exit_with ever_succeeded (some e) (none, w) = (some e, release_lease ever_succeeded w)
  exit_with ever_succeeded none (none, w) = (some leadership_lost, w)

  -- Start, once elector.Run has returned
  unfoldable pub elector_returned : Bool → List (Option Failure) → W → Option ExitError × W
  unfolding exit_with drained
  elector_returned ever_succeeded results w =
      exit_with ever_succeeded (drained ever_succeeded results) (lock.ctx_err w)

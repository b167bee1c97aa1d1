-- ===== src/Tests/Processes.antt =====
-- Runs of a serial tick and of the exit of the leader.
use hyperfleet_applier.Leadership.Handover.{
  handed_over, release_read, release_lease, exit_with, LeaseLock, elector_returned,
}
use hyperfleet_applier.Controllers.Order.{ctx_err_logged, logged}
use hyperfleet_applier.Controllers.Serial.{ran, unless_ended, Reconcilable, tick}
use hyperfleet_applier.Leadership.Exit.{
  elector_returned_iff, IsQuiet, elector_returned-HandedOver, HandedOver,
}
use hyperfleet_applier.Leadership.Exit
use hyperfleet_applier.Base.{
  ◌≡◌, ◌⊎◌, ◌↔◌, ◌≢◌, refl, Bool, true, false, Option, some, none, List, [], ◌∷◌, map,
}
use hyperfleet_applier.Base.Text.{codes, text_eq, text_Eq}
use hyperfleet_applier.Base.Result.{ok}
use hyperfleet_applier.Controllers.Cluster.{Failure, canceled, kube}

-- The world is whether the context has ended; the second reconciler fails as it ends.
abbrev ctx_err : Bool → Option Failure × Bool
ctx_err true = (some canceled, true)
ctx_err false = (none, false)

abbrev reconcilers : List (Reconcilable Bool)
reconcilers =
    record { name = codes "apply"; run_once = λ w. (none, w) }
    ∷ record { name = codes "read"; run_once = λ w. (some (kube []), true) }
    ∷ record { name = codes "delete"; run_once = λ w. (none, w) }
    ∷ []

two_of_three :
    tick (ctx_err_logged ctx_err) (map (λ r. logged r) reconcilers) (false, [])
    ≡ (true, (true, codes "apply" ∷ codes "read" ∷ []))
unfolding tick unless_ended ran
two_of_three = refl

-- a Lease that names this replica
abbrev lock : LeaseLock Bool
lock = record {
  get = λ w. (
    ok (record {
      holder_identity = codes "me";
      lease_duration_seconds = 120;
      acquire_time = 5;
      renew_time = 9;
      leader_transitions = 3;
    }),
    w,
  );
  update = λ _ w. (ok tt, w);
  identity = codes "me";
  ctx_err = ctx_err;
}

elector_returned-HandedOver_example :
    HandedOver lock 11 true
      (none ∷ [])
      (ctx_err true)
      []
      (elector_returned
        (hyperfleet_applier.Leadership.Exit.logged lock)
        11
        true
        (none ∷ [])
        (true, [])).1.1
elector_returned-HandedOver_example = elector_returned-HandedOver lock 11 true (none ∷ []) true []

one_record :
    (elector_returned
      (hyperfleet_applier.Leadership.Exit.logged lock)
      11
      true
      (none ∷ [])
      (true, [])).1.1
    ≡ (record {
      holder_identity = [];
      lease_duration_seconds = 1;
      acquire_time = 11;
      renew_time = 11;
      leader_transitions = 3;
    }
        ∷ [])
unfolding elector_returned exit_with release_lease release_read handed_over text_eq
one_record = refl

elector_returned_iff_example :
    ((elector_returned lock 11 true (none ∷ []) true).0 ≡ none)
    ↔ (((lock.ctx_err true).0 ≢ none) × ((true ≡ false) ⊎ IsQuiet (none ∷ [])))
elector_returned_iff_example = elector_returned_iff lock 11 true (none ∷ []) true

-- ===== src/Controllers/ApplyPass.antt =====
-- internal/controllers/applydesire/controller.go: reconcileOne and RunOnce.
use hyperfleet_applier.Base.{
  ℕ, Bool, true, false, Option, none, some, List, [], ◌∷◌, ◌++◌, if◌then◌else◌,
}
use hyperfleet_applier.Base.Text.{Text}
use hyperfleet_applier.Base.Exec.{Exec}
use hyperfleet_applier.Base.Result.{Result, ok, err}
use hyperfleet_applier.Desire.Types.{Status, ApplyDesire}
use hyperfleet_applier.Desire.Platform.{Platform}
use hyperfleet_applier.Desire.Validate.{Error, version_conflict, not_found}
use hyperfleet_applier.Controllers.Cluster.{
  Failure, store, kube, canceled, deadline_exceeded, leadership_stale, Cluster, equal,
}
use hyperfleet_applier.Controllers.ApplyDesire.{apply_to_cluster}

module _ {W J : Type 0} (c : Cluster W) (p : Platform J) (now : ℕ) where
  -- a conflict of versions is left to the next pass
  unfoldable pub status_written : Result Error ApplyDesire × W → Result Failure (Unit {0}) × W
  status_written (ok _, w) = (ok tt, w)
  status_written (err version_conflict, w) = (ok tt, w)
  status_written (err e, w) = (err (store e), w)

  -- what applyToCluster gave: a desire that is gone is skipped
  unfoldable pub outcome_written :
      ApplyDesire → Result Failure Status × W → Result Failure (Unit {0}) × W
  outcome_written d (err (store not_found), w) = (ok tt, w)
  outcome_written d (err e, w) = (err e, w)
  outcome_written d (ok st, w) =
      if equal p st d.status
      then (ok tt, w)
      else status_written (c.update_apply_desire_status d.identity st d.version w)

  unfoldable pub reconcile_one : ApplyDesire → Exec W Failure (Unit {0})
  reconcile_one d w = outcome_written d (apply_to_cluster c p now d w)

  -- the errors that abort the pass
  unfoldable pub aborts : Failure → Bool
  aborts canceled = true
  aborts deadline_exceeded = true
  aborts leadership_stale = true
  aborts (store e) = c.is_cancellation e
  aborts (kube e) = false

  -- one round of the loop of RunOnce, with the rounds that are left as `again`
  abbrev pub ended :
      List Failure
      → (List Failure → Exec W Failure (List Failure))
      → Result Failure (Unit {0}) × W
      → Result Failure (List Failure) × W
  ended errs again (ok _, u) = again errs u
  ended errs again (err e, u) = elim (aborts e) [
    | true ↦ (err e, u)
    | false ↦ again (errs ++ e ∷ []) u
  ]

  abbrev pub begun :
      List Failure
      → (List Failure → Exec W Failure (List Failure))
      → Exec W Failure (Unit {0})
      → Option Failure × W
      → Result Failure (List Failure) × W
  begun errs again body (some e, u) = (err e, u)
  begun errs again body (none, u) = ended errs again (body u)

  -- The loop of RunOnce, with the failures so far; at the end errors.Join joins them.
  unfoldable pub reconcile_all : List ApplyDesire → List Failure → Exec W Failure (List Failure)
  reconcile_all [] errs w = (ok errs, w)
  reconcile_all (d ∷ ds) errs w =
      begun errs (λ es u. reconcile_all ds es u) (reconcile_one d) (c.ctx_err w)

  unfoldable pub run_once : Text → Exec W Failure (List Failure)
  run_once management_cluster w = listed (c.list_apply_desires management_cluster w)
    where
      listed : Result Error (List ApplyDesire) × W → Result Failure (List Failure) × W
      listed (err e, u) = (err (store e), u)
      listed (ok ds, u) = reconcile_all ds [] u

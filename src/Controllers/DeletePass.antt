-- ===== src/Controllers/DeletePass.antt =====
-- internal/controllers/deletedesire/controller.go: reconcileOne and RunOnce.
use hyperfleet_applier.Base.{ℕ, Option, none, some, List, [], ◌∷◌, ◌++◌, if◌then◌else◌}
use hyperfleet_applier.Base.Text.{Text}
use hyperfleet_applier.Base.Exec.{Exec, ◌>>=◌, pure}
use hyperfleet_applier.Base.Result.{Result, ok, err}
use hyperfleet_applier.Desire.Types.{Status, DeleteDesire}
use hyperfleet_applier.Desire.Platform.{Platform}
use hyperfleet_applier.Desire.Validate.{Error, version_conflict}
use hyperfleet_applier.Desire.Contract.{is_deleted}
use hyperfleet_applier.Controllers.Cluster.{Failure, store, Cluster, ResourceClient, stop_on, equal}
use hyperfleet_applier.Controllers.DeleteDesire.{
  deleted, pre_check_failed, setup_resource_client, execute_delete,
}

-- the status to write, the one that it replaces, and the version of that one
pub record Plan : Type 0 where
  pub new_status : Status
  pub base_status : Status
  pub version : ℕ

module _ {W J : Type 0} (c : Cluster W) (p : Platform J) (now : ℕ) where
  unfoldable pub rechecked :
      ResourceClient → DeleteDesire → Result Error DeleteDesire × W → Result Failure Plan × W
  rechecked client d (err e, w) = (err (store e), w)
  rechecked client d (ok dd, w) =
      if is_deleted p dd.status
      then (
        ok (record {
          new_status = deleted p now dd.status dd.generation;
          base_status = dd.status;
          version = dd.version;
        }),
        w,
      )
      else (do
        st ← execute_delete c p now client d
        pure (record { new_status = st; base_status = d.status; version = d.version }))
          w

  unfoldable pub plan : DeleteDesire → Result Text ResourceClient × W → Result Failure Plan × W
  plan d (err e, w) = (
    ok (record {
      new_status = pre_check_failed p now d.status d.generation e;
      base_status = d.status;
      version = d.version;
    }),
    w,
  )
  plan d (ok client, w) = rechecked client d (c.get_delete_desire d.identity w)

  -- a conflict of versions is left to the next pass
  unfoldable pub status_written : Result Error DeleteDesire × W → Result Failure (Unit {0}) × W
  status_written (ok _, w) = (ok tt, w)
  status_written (err version_conflict, w) = (ok tt, w)
  status_written (err e, w) = ((λ u. stop_on (c.ctx_err u)) >>= λ _ u. (err (store e), u)) w

  unfoldable pub write_plan : DeleteDesire → Plan → Exec W Failure (Unit {0})
  write_plan d planned w =
      if equal p planned.new_status planned.base_status
      then (ok tt, w)
      else status_written
          (c.update_delete_desire_status d.identity planned.new_status planned.version w)

  unfoldable pub reconcile_one : DeleteDesire → Exec W Failure (Unit {0})
  reconcile_one d = do
    planned ← λ w. plan d (setup_resource_client c d.identity w)
    write_plan d planned

  -- one round of the loop of RunOnce, with the rounds that are left as `again`
  abbrev pub failed :
      List Failure
      → (List Failure → Exec W Failure (List Failure))
      → Failure
      → Option Failure × W
      → Result Failure (List Failure) × W
  failed errs again e (some _, u) = (err e, u)
  failed errs again e (none, u) = again (errs ++ e ∷ []) u

  abbrev pub ended :
      List Failure
      → (List Failure → Exec W Failure (List Failure))
      → Result Failure (Unit {0}) × W
      → Result Failure (List Failure) × W
  ended errs again (ok _, u) = again errs u
  ended errs again (err e, u) = failed errs again e (c.ctx_err u)

  abbrev pub begun :
      List Failure
      → (List Failure → Exec W Failure (List Failure))
      → Exec W Failure (Unit {0})
      → Option Failure × W
      → Result Failure (List Failure) × W
  begun errs again body (some e, u) = (err e, u)
  begun errs again body (none, u) = ended errs again (body u)

  -- The loop of RunOnce, with the failures so far: an error ends the pass, and what comes back at its
  -- end is what errors.Join joins.
  unfoldable pub reconcile_all : List DeleteDesire → List Failure → Exec W Failure (List Failure)
  reconcile_all [] errs w = (ok errs, w)
  reconcile_all (d ∷ ds) errs w =
      begun errs (λ es u. reconcile_all ds es u) (reconcile_one d) (c.ctx_err w)

  unfoldable pub run_once : Text → Exec W Failure (List Failure)
  run_once management_cluster w = listed (c.list_delete_desires management_cluster w)
    where
      listed : Result Error (List DeleteDesire) × W → Result Failure (List Failure) × W
      listed (err e, u) = (err (store e), u)
      listed (ok ds, u) = reconcile_all ds [] u

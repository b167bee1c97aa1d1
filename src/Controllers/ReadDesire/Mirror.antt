-- ===== src/Controllers/ReadDesire/Mirror.antt =====
-- The state of internal/controllers/readdesire/controller.go, and what the controller uses of client-go,
-- of the store and of the context, as operations on a world `W` that every call may find changed. One
-- object is read from an informer's cache or from the API server.
use hyperfleet_applier.Controllers.ReadDesire.Informers.{new_informer_manager, Gvr, InformerManager}
use hyperfleet_applier.Controllers.Cluster.{KubeError, Failure}
use hyperfleet_applier.Desire.Types.{ReadStatus, Identity, ReadDesire}
use hyperfleet_applier.Desire.Validate.{Error}
use hyperfleet_applier.Base.Result.{Result}
use hyperfleet_applier.Base.Text.{Text}
use hyperfleet_applier.Base.{ℕ, ◌+◌, ◌%◌, ◌^◌, Bool, Option, List}

-- what is read of a runtime.Object: the version of its kind, and what json.Marshal makes of it
pub record Mirrored : Type 0 where
  pub version : Text
  pub marshaled : Result Text Text

pub record Mirror (W : Type 0) : Type 0 where
  -- ctx.Err()
  pub ctx_err : W → Option Failure × W
  -- the stores
  pub list_read_desires : Text → W → Result Error (List ReadDesire) × W
  pub get_read_desire : Identity → W → Result Error ReadDesire × W
  pub update_read_desire_status : Identity → ReadStatus → W → Result Error ReadDesire × W
  -- mapper.ResourceFor, and Reset
  pub resource_for : Gvr → W → Result KubeError Gvr × W
  pub reset : W → W
  -- HasSynced of an informer, and Get of its lister, with a namespace or with none
  pub has_synced : ℕ → W → Bool × W
  pub cached : ℕ → Text → Text → W → Result KubeError Mirrored × W
  -- Get of a dynamic client's resource, in a namespace or in none
  pub get : Gvr → Text → Text → W → Result KubeError Mirrored × W
  -- the workqueue: Get gives none once it is shut down
  pub queue_get : W → Option Identity × W
  pub queue_done : Identity → W → W
  pub queue_forget : Identity → W → W
  pub queue_add_rate_limited : Identity → W → W
  pub queue_shut_down : W → W
  -- errors.Is with context.Canceled or context.DeadlineExceeded, on a store's error
  pub is_cancellation : Error → Bool

-- Controller. The counters are atomic.Uint64.
pub record Controller (W : Type 0) : Type 0 where
  pub world : W
  pub informers : InformerManager
  pub skipped_writes : ℕ
  pub performed_writes : ℕ
  pub failed_writes : ℕ

module _ {W A : Type 0} where
  -- a call that leaves the controller's own state
  unfoldable pub call : (W → A × W) → Controller W → A × Controller W
  call f s = let (a, w) = f s.world in (a, record s { world = w })

module _ {W : Type 0} where
  -- Add(1) on a counter
  unfoldable pub add_skipped : Controller W → Controller W
  add_skipped s = record s { skipped_writes = (s.skipped_writes + 1) % 2 ^ 64 }

  unfoldable pub add_performed : Controller W → Controller W
  add_performed s = record s { performed_writes = (s.performed_writes + 1) % 2 ^ 64 }

  unfoldable pub add_failed : Controller W → Controller W
  add_failed s = record s { failed_writes = (s.failed_writes + 1) % 2 ^ 64 }

-- New
unfoldable pub new_controller : {W : Type 0} → W → Controller W
unfolding new_informer_manager
new_controller w = record {
  world = w;
  informers = new_informer_manager;
  skipped_writes = 0;
  performed_writes = 0;
  failed_writes = 0;
}

-- ===== src/Tests/ReadData.antt =====
-- The world and the records that the runs of the controller of ReadDesires use. The world is the number of
-- times that the context is still asked before it is canceled.
use hyperfleet_applier.Controllers.ReadDesire.Mirror.{Controller, Mirror, Mirrored}
use hyperfleet_applier.Controllers.ReadDesire.Content.{
  managed_fields_field, metadata_field, JsonCodec, no_field, field, string, object,
}
use hyperfleet_applier.Controllers.ReadDesire.SyncWait.{SyncWorld}
use hyperfleet_applier.Base.{
  Bool, ◌≡◌, refl, true, false, ℕ, zero, suc, Option, some, none, List, [], ◌∷◌, ◌==◌,
  if◌then◌else◌,
}
use hyperfleet_applier.Controllers.ReadDesire.Informers.{
  Gvr, InformerManager, InformerTarget, TrackedInformer,
}
use hyperfleet_applier.Controllers.Cluster.{Failure, canceled}
use hyperfleet_applier.Desire.Platform.{Platform}
use hyperfleet_applier.Desire.Types.{
  type_read, Condition, Identity, ReadDesire, ReadStatus, identity_Eq,
}
use hyperfleet_applier.Base.Text.{Text, codes, text_Eq, text_eq_iff}
use hyperfleet_applier.Base.Result.{ok}
use hyperfleet_applier.Tests.Data.{platform, apply_id}

abbrev pub read_id : Identity
read_id = record apply_id { type = type_read }

-- another desire, which is not listed
abbrev pub gone_id : Identity
gone_id = record read_id { name = codes "old" }

abbrev pub no_status : ReadStatus
no_status = record { status = record { conditions = [] }; kube_content = [] }

abbrev pub read_1 : ReadDesire
read_1 = record {
  identity = read_id;
  owner = codes "me";
  origin_id = codes "o";
  target_version = codes "v1";
  status = no_status;
  generation = 1;
  version = 1;
}

abbrev pub pods : Gvr
pods = record { group = []; version = codes "v1"; resource = codes "pods" }

abbrev pub pod : Mirrored
pod = record { version = codes "v1"; marshaled = ok (codes "b") }

-- SetStatusCondition on at most one condition
unfoldable pub settle : ℕ → List Condition → Condition → List Condition
settle now [] c = record c { last_transition_time = now } ∷ []
settle now (k ∷ ks) c =
    record c { last_transition_time = if k.status == c.status then k.last_transition_time else now }
    ∷ []

pub settle_again :
    (cs : List Condition) (c : Condition) → settle 7 (settle 5 cs c) c ≡ settle 5 cs c
unfolding settle
settle_again [] c = rw ((text_eq_iff c.status c.status).1 refl) refl
settle_again (k ∷ ks) c = rw ((text_eq_iff c.status c.status).1 refl) refl

abbrev pub settling : Platform Text
settling = record platform { set_status_condition = settle }

-- Every text is an object whose managedFields is the text.
abbrev pub json : JsonCodec
json = record {
  decode_object = λ t. some (
    some (field metadata_field (object (field managed_fields_field (string t) no_field)) no_field),
    [],
  );
  at_eof = λ _. true;
  marshal = λ _. some (codes "{}");
}

unfoldable pub context : ℕ → Option Failure × ℕ
context zero = (some canceled, zero)
context (suc n) = (none, n)

-- what the store has: a desire with a status
abbrev pub mirror : ReadStatus → Mirror ℕ
mirror status = record {
  ctx_err = context;
  list_read_desires = λ _ w. (ok (read_1 ∷ []), w);
  get_read_desire = λ _ w. (ok (record read_1 { status = status }), w);
  update_read_desire_status = λ _ _ w. (ok read_1, w);
  resource_for = λ _ w. (ok pods, w);
  reset = λ w. w;
  has_synced = λ _ w. (true, w);
  cached = λ _ _ _ w. (ok pod, w);
  get = λ _ _ _ w. (ok pod, w);
  queue_get = λ w. (some read_id, w);
  queue_done = λ _ w. w;
  queue_forget = λ _ w. w;
  queue_add_rate_limited = λ _ w. w;
  queue_shut_down = λ w. w;
  is_cancellation = λ _. false;
}

abbrev pub wire : Identity → InformerTarget → Option Text
wire _ _ = none

abbrev pub read_target : InformerTarget
read_target = record { gvr = pods; namespace = codes "ns"; name = codes "web" }

abbrev pub informer_0 : TrackedInformer
informer_0 = record { stop_ch = 0; gvr = pods }

-- the two desires have an informer each
abbrev pub two_informers : InformerManager
two_informers = record {
  informers = (read_id, informer_0) ∷ (gone_id, record { stop_ch = 1; gvr = pods }) ∷ [];
  next_ch = 2;
  closed = [];
}

abbrev pub controller_at : InformerManager → ℕ → Controller ℕ
controller_at m w = record {
  world = w;
  informers = m;
  skipped_writes = 0;
  performed_writes = 0;
  failed_writes = 0;
}

abbrev pub mc : Text
mc = codes "mc"

-- a wait that a channel ends if it is closed while the cache has not synced
unfoldable pub ended_wait : Bool → Bool × Bool
ended_wait true = (false, false)
ended_wait false = (true, true)

-- An informer that is never stopped and whose cache syncs after the timeout. The world is whether the
-- cache has synced.
abbrev pub overdue : SyncWorld Bool
overdue = record {
  has_synced = λ w. w;
  is_stopped = λ _. false;
  is_timed_out = λ _. true;
  wait_for_cache_sync = λ closed _. ended_wait (closed false);
  look = λ w. w;
  queue_add = λ _ w. w;
}

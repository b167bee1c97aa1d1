-- ===== src/Controllers/ReadDesire/Poll.antt =====
-- internal/controllers/readdesire/controller.go: pollOnce, runPollLoop and Start, and processNextWorkItem
-- and runWorker of worker.go. A poll and a worker's round are one step each here.
use hyperfleet_applier.Controllers.ReadDesire.Informers.{
  Gvr, reconcile, InformerTarget, shutdown_all,
}
use hyperfleet_applier.Desire.Validate.{Error}
use hyperfleet_applier.Base.Dict.{insert, Dict}
use hyperfleet_applier.Base.Text.{Text, text_Eq, codes}
use hyperfleet_applier.Controllers.ReadDesire.Worker.{sync, apply_status, resolve_gvr}
use hyperfleet_applier.Controllers.ReadDesire.Mirror.{Controller, call, Mirror}
use hyperfleet_applier.Desire.Types.{Identity, ReadDesire, identity_Eq}
use hyperfleet_applier.Controllers.ReadDesire.Content.{JsonCodec}
use hyperfleet_applier.Desire.Platform.{Platform}
use hyperfleet_applier.Base.Result.{Result, ok, err}
use hyperfleet_applier.Controllers.Cluster.{
  Failure, canceled, deadline_exceeded, leadership_stale, store, kube, KubeError, error_text,
}
use hyperfleet_applier.Controllers.ReadDesire.Status.{pre_check_failed}
use hyperfleet_applier.Base.{
  ℕ, suc, zero, Bool, true, false, Option, none, some, List, [], ◌∷◌, ◌++◌, if◌then◌else◌,
}

-- `seen` and `want`
abbrev pub Sets : Type 0
Sets = Dict Identity (Unit {0}) × Dict Identity InformerTarget

module _ {W : Type 0} (c : Mirror W) where
  -- errors.Is with context.Canceled or context.DeadlineExceeded
  unfoldable pub is_canceled : Failure → Bool
  is_canceled canceled = true
  is_canceled deadline_exceeded = true
  is_canceled leadership_stale = false
  is_canceled (store e) = c.is_cancellation e
  is_canceled (kube e) = false

  -- Start, once the poll loop has ended: the queue and the informers are shut down
  unfoldable pub torn_down : Failure → Controller W → Option Failure × Controller W
  unfolding shutdown_all is_canceled
  torn_down poll_err s = (
    if is_canceled poll_err then none else some poll_err,
    record s { world = c.queue_shut_down s.world; informers = shutdown_all s.informers },
  )

  -- the switch of processNextWorkItem
  unfoldable pub requeue : Identity → Result Failure (Unit {0}) → W → W
  unfolding is_canceled
  requeue key (ok _) w = c.queue_forget key w
  requeue key (err e) w =
      if is_canceled e then c.queue_forget key w else c.queue_add_rate_limited key w

module _ {W J : Type 0} (c : Mirror W) (p : Platform J) (json : JsonCodec) (now : ℕ) where
  -- preCheckFailed recorded by applyStatus; an error of it is only logged
  unfoldable pub report_failed : Identity → Text → Controller W → Controller W
  unfolding apply_status pre_check_failed
  report_failed id msg s =
      (apply_status c p json now id (λ d t. (pre_check_failed p now d.status d.generation msg, t))
        s).1

  abbrev pub no_mapping : ReadDesire → Text → Text
  no_mapping d e =
      codes "readdesire: no resource mapping for "
      ++ (d.identity.group
          ++ (b'/' ∷ d.target_version ++ (b'/' ∷ d.identity.resource ++ (codes ": " ++ e))))

  -- pollOnce: the round of one desire, once its resource is resolved
  unfoldable pub resolved :
      ReadDesire
      → Dict Identity InformerTarget
      → Result KubeError Gvr × Controller W
      → Dict Identity InformerTarget × Controller W
  unfolding report_failed
  resolved d want (err e, s) = (want, report_failed d.identity (no_mapping d (error_text e)) s)
  resolved d want (ok gvr, s) = (
    insert d.identity
        (record { gvr = gvr; namespace = d.identity.namespace; name = d.identity.name }) want,
    s,
  )

  abbrev pub unless_done :
      {A : Type 0}
      → (Controller W → Result Failure A × Controller W)
      → Option Failure × Controller W
      → Result Failure A × Controller W
  unless_done body (some e, s) = (err e, s)
  unless_done body (none, s) = body s

  -- the loop over the listed desires
  unfoldable pub gather : List ReadDesire → Sets → Controller W → Result Failure Sets × Controller W
  unfolding resolved resolve_gvr call
  gather [] sets s = (ok sets, s)
  gather (d ∷ ds) (seen, want) s =
      unless_done
        (λ t.
          let (want_d, u) =
            resolved d want
              (resolve_gvr c d.identity.group d.target_version d.identity.resource t) in
          gather ds (insert d.identity tt seen, want_d) u)
        (call c.ctx_err s)

  -- the loop over the informers that did not start
  unfoldable pub report_all :
      Dict Identity Text → Controller W → Result Failure (Unit {0}) × Controller W
  unfolding report_failed call
  report_all [] s = (ok tt, s)
  report_all ((key, e) ∷ rest) s =
      unless_done
        (λ t.
          report_all rest (report_failed key (codes "readdesire: start informer failed: " ++ e) t))
        (call c.ctx_err s)

  module _ (wire : Identity → InformerTarget → Option Text) where
    unfoldable pub gathered :
        Result Failure Sets × Controller W → Result Failure (Unit {0}) × Controller W
    unfolding reconcile report_all
    gathered (err e, s) = (err e, s)
    gathered (ok (seen, want), s) =
        let (failed, m) = reconcile wire seen want s.informers in
        report_all failed (record s { informers = m })

    unfoldable pub listed :
        Result Error (List ReadDesire) × Controller W → Result Failure (Unit {0}) × Controller W
    unfolding gathered gather
    listed (err e, s) = (ok tt, s)
    listed (ok ds, s) = gathered (gather ds ([], []) s)

    -- pollOnce
    unfoldable pub poll_once : Text → Controller W → Result Failure (Unit {0}) × Controller W
    unfolding listed call
    poll_once management_cluster s = listed (call (c.list_read_desires management_cluster) s)

  -- the round of runPollLoop's loop after the poll: it waits for the context's end or for the ticker
  abbrev pub waited :
      (Controller W → Option Failure × Controller W)
      → Option Failure × Controller W
      → Option Failure × Controller W
  waited again (some e, s) = (some e, s)
  waited again (none, s) = again s

  unfoldable pub polled :
      (Controller W → Option Failure × Controller W)
      → Result Failure (Unit {0}) × Controller W
      → Option Failure × Controller W
  unfolding call
  polled again (err e, s) = (some e, s)
  polled again (ok _, s) = waited again (call c.ctx_err s)

  -- runPollLoop, by what wiring gives in each poll; with no poll left it has not ended
  unfoldable pub run_poll_loop :
      Text
      → List (Identity → InformerTarget → Option Text)
      → Controller W
      → Option Failure × Controller W
  unfolding poll_once polled
  run_poll_loop management_cluster [] s = (none, s)
  run_poll_loop management_cluster (wire ∷ wires) s =
      polled (λ t. run_poll_loop management_cluster wires t) (poll_once wire management_cluster s)

  -- processNextWorkItem
  unfoldable pub process_next_work_item : Controller W → Bool × Controller W
  unfolding call sync requeue
  process_next_work_item s = taken (call c.queue_get s)
    where
      synced : Identity → Result Failure (Unit {0}) × Controller W → Bool × Controller W
      synced key (r, t) = (true, record t { world = c.queue_done key (requeue c key r t.world) })

      taken : Option Identity × Controller W → Bool × Controller W
      taken (none, t) = (false, t)
      taken (some key, t) = synced key (sync c p json now key t)

  -- runWorker, for a number of rounds: whether the queue has been shut down
  abbrev pub worked :
      (Controller W → Bool × Controller W) → Bool × Controller W → Bool × Controller W
  worked again (true, s) = again s
  worked again (false, s) = (true, s)

  unfoldable pub run_worker : ℕ → Controller W → Bool × Controller W
  unfolding process_next_work_item
  run_worker zero s = (false, s)
  run_worker (suc n) s = worked (λ t. run_worker n t) (process_next_work_item s)

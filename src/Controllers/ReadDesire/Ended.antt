-- ===== src/Controllers/ReadDesire/Ended.antt =====
-- How the controller ends: runPollLoop and Start of internal/controllers/readdesire/controller.go.
use hyperfleet_applier.Controllers.ReadDesire.Shutdown.{shutdown_all-closed}
use hyperfleet_applier.Base.Dict.{lookup, Dict}
use hyperfleet_applier.Controllers.ReadDesire.Channels.{IsOnce, has, IsTracked}
use hyperfleet_applier.Base.{◌<◌, subst, ℕ, ◌≡◌, refl, ap, true, Option, some, none, List, [], ◌∷◌}
use hyperfleet_applier.Desire.Validate.{Error}
use hyperfleet_applier.Controllers.ReadDesire.Poll.{
  Sets, gather, gathered, listed, poll_once, report_all, unless_done, is_canceled, waited, polled,
  run_poll_loop, torn_down,
}
use hyperfleet_applier.Desire.Types.{ReadDesire, Identity, identity_Eq}
use hyperfleet_applier.Controllers.ReadDesire.Polls.{poll_once-IsTracked}
use hyperfleet_applier.Controllers.ReadDesire.Informers.{InformerTarget}
use hyperfleet_applier.Base.Text.{Text}
use hyperfleet_applier.Controllers.Cluster.{Failure}
use hyperfleet_applier.Controllers.ReadDesire.Mirror.{call, Controller, Mirror}
use hyperfleet_applier.Controllers.ReadDesire.Content.{JsonCodec}
use hyperfleet_applier.Desire.Platform.{Platform}
use hyperfleet_applier.Base.Result.{Result, ok, err}

module _ {W J : Type 0} (c : Mirror W) (p : Platform J) (json : JsonCodec) (now : ℕ) where
  waited-IsTracked :
      (again : Controller W → Option Failure × Controller W) (o : Option Failure) (s : Controller W)
      → IsTracked s.informers
      → ((t : Controller W) → IsTracked t.informers → IsTracked (again t).1.informers)
      → IsTracked (waited c p json now again (o, s)).1.informers
  waited-IsTracked again none s v k = k s v
  waited-IsTracked again (some e) s v k = v

  polled-IsTracked :
      (again : Controller W → Option Failure × Controller W) (r : Result Failure (Unit {0}))
      (s : Controller W)
      → IsTracked s.informers
      → ((t : Controller W) → IsTracked t.informers → IsTracked (again t).1.informers)
      → IsTracked (polled c p json now again (r, s)).1.informers
  unfolding polled call
  polled-IsTracked again (err e) s v k = v
  polled-IsTracked again (ok _) s v k = waited-IsTracked again (c.ctx_err s.world).0 _ v k

  run_poll_loop-IsTracked :
      (management_cluster : Text) (wires : List (Identity → InformerTarget → Option Text))
      (s : Controller W)
      → IsTracked s.informers
      → IsTracked (run_poll_loop c p json now management_cluster wires s).1.informers
  unfolding run_poll_loop
  run_poll_loop-IsTracked management_cluster [] s v = v
  run_poll_loop-IsTracked management_cluster (wire ∷ wires) s v =
      polled-IsTracked _ _ _ (poll_once-IsTracked c p json now wire management_cluster s v)
        λ t w. run_poll_loop-IsTracked management_cluster wires t w

  -- When the poll loop, begun with every stop channel accounted for, has ended with an error, then after
  -- Start's shutdown no informer is left, and every stop channel that was ever made is closed, exactly
  -- once.
  pub torn_down-closed :
      (management_cluster : Text) (wires : List (Identity → InformerTarget → Option Text))
      (s u : Controller W) (e : Failure) (n : ℕ)
      → IsTracked s.informers
      → run_poll_loop c p json now management_cluster wires s ≡ (some e, u)
      → n < u.informers.next_ch
      → (has n (torn_down c e u).1.informers.closed ≡ true)
        × IsOnce (torn_down c e u).1.informers.closed
        × ((key : Identity) → lookup key (torn_down c e u).1.informers.informers ≡ none)
  unfolding torn_down
  torn_down-closed management_cluster wires s u e n v h = shutdown_all-closed u.informers n (
      subst (λ (r : Option Failure × Controller W). IsTracked r.1.informers) h
        (run_poll_loop-IsTracked management_cluster wires s v))

  -- The error of a result is the end of the context.
  abbrev Stops : {A : Type 0} → Result Failure A × Controller W → Type 0
  Stops r = (e : Failure) → r.0 ≡ err e → is_canceled c e ≡ true

  module _ (law : (w : W) (e : Failure) → (c.ctx_err w).0 ≡ some e → is_canceled c e ≡ true) where
    unless_done-Stops :
        (A : Type 0) (body : Controller W → Result Failure A × Controller W) (o : Option Failure)
        (s : Controller W)
        → ((e : Failure) → o ≡ some e → is_canceled c e ≡ true)
        → ((t : Controller W) → Stops (body t))
        → Stops (unless_done c p json now body (o, s))
    unless_done-Stops A body none s h k = k s
    unless_done-Stops A body (some x) s h k = λ e q. h e (cc q)

    gather-Stops :
        (ds : List ReadDesire) (sets : Sets) (s : Controller W)
        → Stops (gather c p json now ds sets s)
    unfolding gather call
    gather-Stops [] sets s = λ e q. cc
    gather-Stops (d ∷ ds) (seen, want) s =
        unless_done-Stops Sets _ (c.ctx_err s.world).0 _ (law s.world) λ t. gather-Stops ds _ _

    report_all-Stops :
        (failed : Dict Identity Text) (s : Controller W) → Stops (report_all c p json now failed s)
    unfolding report_all call
    report_all-Stops [] s = λ e q. cc
    report_all-Stops ((key, x) ∷ rest) s =
        unless_done-Stops Unit _ (c.ctx_err s.world).0 _ (law s.world) λ t. report_all-Stops rest _

    gathered-Stops :
        (wire : Identity → InformerTarget → Option Text) (r : Result Failure Sets × Controller W)
        → Stops r
        → Stops (gathered c p json now wire r)
    unfolding gathered
    gathered-Stops wire (err e, s) h = λ x q. h x (cc q)
    gathered-Stops wire (ok (seen, want), s) h = report_all-Stops _ _

    listed-Stops :
        (wire : Identity → InformerTarget → Option Text) (r : Result Error (List ReadDesire))
        (s : Controller W)
        → Stops (listed c p json now wire (r, s))
    unfolding listed
    listed-Stops wire (err e) s = λ x q. cc
    listed-Stops wire (ok ds) s = gathered-Stops wire _ (gather-Stops ds ([], []) s)

    waited-canceled :
        (again : Controller W → Option Failure × Controller W) (o : Option Failure)
        (s : Controller W) (e : Failure)
        → ((x : Failure) → o ≡ some x → is_canceled c x ≡ true)
        → ((t : Controller W) → (again t).0 ≡ some e → is_canceled c e ≡ true)
        → (waited c p json now again (o, s)).0 ≡ some e
        → is_canceled c e ≡ true
    waited-canceled again none s e l k h = k s h
    waited-canceled again (some x) s e l k h = l e h

    polled-canceled :
        (again : Controller W → Option Failure × Controller W) (r : Result Failure (Unit {0}))
        (s : Controller W) (e : Failure)
        → Stops (r, s)
        → ((t : Controller W) → (again t).0 ≡ some e → is_canceled c e ≡ true)
        → (polled c p json now again (r, s)).0 ≡ some e
        → is_canceled c e ≡ true
    unfolding polled call
    polled-canceled again (err x) s e l k h = l e (cc h)
    polled-canceled again (ok _) s e l k h =
        waited-canceled again (c.ctx_err s.world).0 _ e (law s.world) k h

    run_poll_loop-canceled :
        (management_cluster : Text) (wires : List (Identity → InformerTarget → Option Text))
        (s : Controller W) (e : Failure)
        → (run_poll_loop c p json now management_cluster wires s).0 ≡ some e
        → is_canceled c e ≡ true
    unfolding run_poll_loop poll_once call
    run_poll_loop-canceled management_cluster [] s e h = cc
    run_poll_loop-canceled management_cluster (wire ∷ wires) s e h =
        polled-canceled _ _ _ e (listed-Stops wire _ _)
          (λ t. run_poll_loop-canceled management_cluster wires t e) h

    -- Where the context ends only by being canceled or by its deadline, Start returns nil when its
    -- poll loop has ended: no failure to
    -- list, to resolve, to start an informer or to write a status ends the poll loop.
    pub torn_down-clean :
        (management_cluster : Text) (wires : List (Identity → InformerTarget → Option Text))
        (s u : Controller W) (e : Failure)
        → run_poll_loop c p json now management_cluster wires s ≡ (some e, u)
        → (torn_down c e u).0 ≡ none
    unfolding torn_down
    torn_down-clean management_cluster wires s u e h =
        let stop = run_poll_loop-canceled management_cluster wires s e (ap (λ r. r.0) h) in
        rw stop refl

-- ===== src/Tests/ReadController.antt =====
-- Runs of the controller of ReadDesires.
use hyperfleet_applier.Controllers.ReadDesire.SyncWait.{
  await_sync, timeout_or_stop, bounded_waited, selected, added_if,
}
use hyperfleet_applier.Controllers.ReadDesire.SyncAdds.{
  await_sync-IsAwaited, IsAwaited, IsSyncWorld,
}
use hyperfleet_applier.Controllers.ReadDesire.SameObject.{semantic_content_equal_iff, IsSame}
use hyperfleet_applier.Controllers.ReadDesire.Mirror.{new_controller, add_skipped, call, Controller}
use hyperfleet_applier.Controllers.ReadDesire.Content.{
  drop_managed, drop_managed_in, is_managed, normalize, semantic_content_equal,
  managed_fields_field, metadata_field, no_field, field, string, object,
}
use hyperfleet_applier.Controllers.ReadDesire.Same.{
  erase, semantic_content_equal-retouch, assign_in, assign, retouch,
}
use hyperfleet_applier.Base.{
  Bool-cases, inl, inr, ◌⊎◌, ◌↔◌, sym, ap, ◌∙◌, false, arith, ◌<◌, subst, ◌≡◌, refl, true, ℕ, zero,
  suc, some, none, [], ◌∷◌,
}
use hyperfleet_applier.Controllers.ReadDesire.Informers.{
  wired, gvr_eq, ensure_from, ensure, ensure_all, stop_informer, stop_unless, stop_unseen,
  new_informer_manager, reconcile, start,
}
use hyperfleet_applier.Controllers.ReadDesire.Poll.{
  polled, report_all, resolved, gather, gathered, is_canceled, listed, run_poll_loop, torn_down,
  poll_once,
}
use hyperfleet_applier.Controllers.ReadDesire.Polls.{
  poll_once-unlisted, poll_once-IsTracked, poll_once-Steady,
}
use hyperfleet_applier.Controllers.ReadDesire.Ended.{torn_down-closed, torn_down-clean}
use hyperfleet_applier.Controllers.ReadDesire.Shutdown.{new_informer_manager-IsTracked}
use hyperfleet_applier.Controllers.ReadDesire.Channels.{IsOnce, IsTracked, has}
use hyperfleet_applier.Controllers.ReadDesire.Settled.{sync-IsSame}
use hyperfleet_applier.Controllers.ReadDesire.Worker.{sync, retried, observe, resolve_gvr}
use hyperfleet_applier.Controllers.Cluster.{with_condition, Failure, canceled}
use hyperfleet_applier.Controllers.ReadDesire.Justified.{observe-Justified, Justified}
use hyperfleet_applier.Controllers.ReadDesire.Kept.{reconcile-wanted}
use hyperfleet_applier.Controllers.ReadDesire.Status.{with_read_condition, synced}
use hyperfleet_applier.Controllers.ReadDesire.Collected.{lists}
use hyperfleet_applier.Controllers.ReadDesire.Reconciled.{Ensured}
use hyperfleet_applier.Desire.Types.{Identity, ReadStatus, identity_Eq, identity_eq}
use hyperfleet_applier.Base.Text.{codes, text_eq, text_Eq}
use hyperfleet_applier.Base.Result.{ok}
use hyperfleet_applier.Base.Dict.{lookup, insert, remove}
use hyperfleet_applier.Tests.Data.{find}
use hyperfleet_applier.Tests.ReadData.{
  overdue, ended_wait, read_id, gone_id, no_status, read_1, pod, settle, settle_again, settling,
  json, context, mirror, wire, read_target, informer_0, two_informers, controller_at, mc,
}

reconcile-wanted_example :
    Ensured wire read_id read_target
      (reconcile wire ((read_id, tt) ∷ []) ((read_id, read_target) ∷ []) two_informers)
unfolding lookup identity_eq text_eq
reconcile-wanted_example =
    reconcile-wanted wire ((read_id, tt) ∷ []) ((read_id, read_target) ∷ []) two_informers read_id
      (refl, tt) refl

observe-Justified_example :
    Justified
      (mirror no_status)
      settling
      7
      read_id
      (codes "v1")
      1
      no_status
      (controller_at two_informers 3)
      (observe
        (mirror no_status)
        settling
        7
        read_id
        (codes "v1")
        1
        no_status
        (controller_at two_informers 3)).0
observe-Justified_example =
    observe-Justified (mirror no_status) settling 7 read_id (codes "v1") 1 no_status
      (controller_at two_informers 3)

abbrev mirrored_status : ReadStatus
mirrored_status = synced settling 5 no_status 1 (codes "a")

sync-IsSame_example :
    (IsSame json (codes "b") (codes "a")
      × (sync (mirror mirrored_status) settling json 7 read_id (controller_at two_informers 3)
          ≡ (ok tt, add_skipped (controller_at two_informers 3))))
    ⊎ ((IsSame json (codes "b") (codes "a") → ⊥)
        × ((sync
              (mirror mirrored_status)
              settling
              json
              7
              read_id
              (controller_at two_informers 3)).1.world
            ≡ 3))
unfolding lookup identity_eq text_eq find settle synced with_read_condition with_condition
sync-IsSame_example =
    sync-IsSame (mirror mirrored_status) settling json 7 (controller_at two_informers 3) read_id
      (record read_1 { status = mirrored_status }) 5 no_status (codes "a") (codes "b") informer_0
      pod true 3 3 3 settle_again (refl, tt) refl refl refl refl refl refl refl

poll_once-Steady_example :
    lookup read_id
      (poll_once
        (mirror no_status)
        settling
        json
        7
        wire
        mc
        (controller_at two_informers 0)).1.informers.informers
    ≡ some informer_0
unfolding lookup identity_eq text_eq lists resolve_gvr retried call
poll_once-Steady_example =
    poll_once-Steady (mirror no_status) settling json 7 wire mc (controller_at two_informers 0)
      (read_1 ∷ []) read_id informer_0 refl refl (λ t x _ e. cc e, tt) refl

poll_once-unlisted_example :
    lookup gone_id
      (poll_once
        (mirror no_status)
        settling
        json
        7
        wire
        mc
        (controller_at two_informers 3)).1.informers.informers
    ≡ none
unfolding lookup insert remove identity_eq text_eq lists poll_once listed gathered gather resolved
    resolve_gvr retried call context reconcile stop_unseen stop_unless stop_informer ensure_all
    ensure ensure_from gvr_eq report_all
poll_once-unlisted_example =
    poll_once-unlisted (mirror no_status) settling json 7 wire mc (controller_at two_informers 3)
      (read_1 ∷ []) gone_id refl refl refl

abbrev started : Controller ℕ
started = new_controller 1

started-IsTracked : IsTracked started.informers
unfolding new_controller
started-IsTracked = new_informer_manager-IsTracked

poll_once-IsTracked_example :
    IsTracked (poll_once (mirror no_status) settling json 7 wire mc started).1.informers
poll_once-IsTracked_example =
    poll_once-IsTracked (mirror no_status) settling json 7 wire mc started started-IsTracked

abbrev ended : Controller ℕ
ended = (run_poll_loop (mirror no_status) settling json 7 mc (wire ∷ []) started).1

started_ends :
    run_poll_loop (mirror no_status) settling json 7 mc (wire ∷ []) started ≡ (some canceled, ended)
unfolding lookup insert remove identity_eq text_eq poll_once listed gathered gather resolved
    resolve_gvr retried call context reconcile stop_unseen stop_unless stop_informer ensure_all
    ensure ensure_from gvr_eq report_all run_poll_loop polled new_informer_manager start wired
    new_controller
started_ends = refl

one_started : 0 < ended.informers.next_ch
unfolding lookup insert remove identity_eq text_eq poll_once listed gathered gather resolved
    resolve_gvr retried call context reconcile stop_unseen stop_unless stop_informer ensure_all
    ensure ensure_from gvr_eq report_all run_poll_loop polled new_informer_manager start wired
    new_controller
one_started = omega arith

torn_down-closed_example :
    (has 0 (torn_down (mirror no_status) canceled ended).1.informers.closed ≡ true)
    × IsOnce (torn_down (mirror no_status) canceled ended).1.informers.closed
    × ((key : Identity)
        → lookup key (torn_down (mirror no_status) canceled ended).1.informers.informers ≡ none)
torn_down-closed_example =
    torn_down-closed (mirror no_status) settling json 7 mc (wire ∷ []) started ended canceled 0
      started-IsTracked started_ends one_started

context-canceled :
    (w : ℕ) (e : Failure) → (context w).0 ≡ some e → is_canceled (mirror no_status) e ≡ true
unfolding context is_canceled
context-canceled zero e h =
    let same : canceled ≡ e = cc h in subst (λ x. is_canceled (mirror no_status) x ≡ true) same refl
context-canceled (suc n) e h = cc

torn_down-clean_example : (torn_down (mirror no_status) canceled ended).0 ≡ none
torn_down-clean_example =
    torn_down-clean (mirror no_status) settling json 7 context-canceled mc (wire ∷ []) started ended
      canceled started_ends

semantic_content_equal_iff_example :
    (semantic_content_equal json (codes "a") (codes "b") ≡ true)
    ↔ IsSame json (codes "a") (codes "b")
semantic_content_equal_iff_example = semantic_content_equal_iff json (codes "a") (codes "b")

semantic_content_equal-retouch_example : semantic_content_equal json (codes "a") (codes "b") ≡ true
unfolding retouch assign assign_in erase text_eq is_managed normalize drop_managed_in drop_managed
semantic_content_equal-retouch_example =
    semantic_content_equal-retouch json (codes "a") (codes "b") [] [] (codes "{}")
      (field metadata_field (object (field managed_fields_field (string (codes "a")) no_field))
        no_field)
      managed_fields_field (string (codes "b")) refl refl refl refl refl refl

overdue-IsSyncWorld : IsSyncWorld overdue
unfolding ended_wait
overdue-IsSyncWorld = record {
  wait_synced = λ closed v h. elim (Bool-cases (closed false)) [
    | inl y ↦ cc (sym (ap (λ b. (ended_wait b).0) y) ∙ h)
    | inr n ↦ ap (λ b. (ended_wait b).1) n
  ];
  wait_closed = λ closed v h. elim (Bool-cases (closed false)) [
    | inl y ↦ ap (λ b. closed (ended_wait b).1) y ∙ y
    | inr n ↦ cc (sym (ap (λ b. (ended_wait b).0) n) ∙ h)
  ];
  look_stopped = λ v h. h;
  look_timed_out = λ v h. h;
}

await_sync-IsAwaited_example :
    IsAwaited overdue read_id [] ((true, (read_id, true) ∷ (read_id, false) ∷ []))
unfolding await_sync timeout_or_stop bounded_waited selected added_if ended_wait
await_sync-IsAwaited_example = await_sync-IsAwaited overdue overdue-IsSyncWorld read_id [] false

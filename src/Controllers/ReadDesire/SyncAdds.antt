-- ===== src/Controllers/ReadDesire/SyncAdds.antt =====
-- When the goroutine of start adds its key to the queue
-- (internal/controllers/readdesire/informer_manager.go).
use hyperfleet_applier.Controllers.ReadDesire.SyncWait.{
  timeout_or_stop, added_if, await_sync, bounded_waited, selected, SyncWorld,
}
use hyperfleet_applier.Base.{
  ◌≡◌, inl, inr, refl, Bool, true, false, ◌||◌, List, ◌∷◌, arith, Bool-cases,
}
use hyperfleet_applier.Desire.Types.{Identity}

-- a world that also has the keys that were added and the states in which they were, the latest first
abbrev pub Adds : Type 0 → Type 0
Adds V = V × List (Identity × V)

abbrev pub logged : {V : Type 0} → SyncWorld V → SyncWorld (Adds V)
logged sw = record {
  has_synced = λ w. sw.has_synced w.0;
  is_stopped = λ w. sw.is_stopped w.0;
  is_timed_out = λ w. sw.is_timed_out w.0;
  wait_for_cache_sync =
      λ closed w. let (b, v) = sw.wait_for_cache_sync (λ u. closed (u, w.1)) w.0 in (b, (v, w.1));
  look = λ w. (sw.look w.0, w.1);
  queue_add = λ key w. (sw.queue_add key w.0, (key, w.0) ∷ w.1);
}

module _ {V : Type 0} (sw : SyncWorld V) where
  -- WaitForCacheSync ends as its documentation says: with true once the cache has synced, and else with
  -- false once the channel is closed; a channel stays closed and a timer stays elapsed.
  pub record IsSyncWorld : Type 0 where
    pub wait_synced :
        (closed : V → Bool) (v : V)
        → (sw.wait_for_cache_sync closed v).0 ≡ true
        → sw.has_synced (sw.wait_for_cache_sync closed v).1 ≡ true
    pub wait_closed :
        (closed : V → Bool) (v : V)
        → (sw.wait_for_cache_sync closed v).0 ≡ false
        → closed (sw.wait_for_cache_sync closed v).1 ≡ true
    pub look_stopped : (v : V) → sw.is_stopped v ≡ true → sw.is_stopped (sw.look v) ≡ true
    pub look_timed_out : (v : V) → sw.is_timed_out v ≡ true → sw.is_timed_out (sw.look v) ≡ true

  -- The four ways in which the goroutine can end, by the state `w` that it leaves:
  pub data IsAwaited (key : Identity) (log : List (Identity × V)) (w : Adds V) : Type 0 where
    -- the cache has synced in time, and the key was added then
    in_time : (v : V) → sw.has_synced v ≡ true → w.1 ≡ (key, v) ∷ log → IsAwaited key log w
    -- the informer was stopped, and nothing was added
    stopped_first : sw.is_stopped w.0 ≡ true → w.1 ≡ log → IsAwaited key log w
    -- the time was over with the informer not stopped, the key was added then, and again when the cache
    -- had synced
    late :
        (u v : V)
        → sw.is_timed_out u ≡ true
        → sw.is_stopped u ≡ false
        → sw.has_synced v ≡ true
        → w.1 ≡ (key, v) ∷ (key, u) ∷ log
        → IsAwaited key log w
    -- the time was over, the key was added then, and the informer was stopped before a sync
    stopped_later :
        (u : V)
        → sw.is_timed_out u ≡ true
        → sw.is_stopped u ≡ false
        → sw.is_stopped w.0 ≡ true
        → w.1 ≡ (key, u) ∷ log
        → IsAwaited key log w

  module _ (laws : IsSyncWorld) (key : Identity) (log : List (Identity × V)) where
    second_wait :
        (u : V) (b : Bool)
        → sw.is_timed_out u ≡ true
        → sw.is_stopped u ≡ false
        → (sw.wait_for_cache_sync sw.is_stopped (sw.queue_add key u)).0 ≡ b
        → IsAwaited key log (
            added_if
              (logged sw)
              key
              (b, ((sw.wait_for_cache_sync sw.is_stopped (sw.queue_add key u)).1, (key, u) ∷ log)))
    unfolding added_if
    second_wait u true t n h = late u _ t n (laws.wait_synced _ _ h) refl
    second_wait u false t n h = stopped_later u t n (laws.wait_closed _ _ h) refl

    select-IsAwaited :
        (u : V) (b : Bool)
        → sw.is_stopped u ≡ b
        → (sw.is_stopped u || sw.is_timed_out u) ≡ true
        → IsAwaited key log (selected (logged sw) key b (u, log))
    unfolding selected
    select-IsAwaited u true h k = stopped_first h refl
    select-IsAwaited u false h k = second_wait u _ (ground (arith, h, k)) h refl

    still_closed :
        (v : V)
        → (sw.is_stopped v || sw.is_timed_out v) ≡ true
        → (sw.is_stopped (sw.look v) || sw.is_timed_out (sw.look v)) ≡ true
    still_closed v h = elim (Bool-cases (sw.is_stopped v)) [
      | inl y ↦ let k = laws.look_stopped v y in ground (arith)
      | inr n ↦
          let t : sw.is_timed_out v ≡ true = ground (arith, h, n) in
          let k = laws.look_timed_out v t in ground (arith)
    ]

    first_wait :
        (v : V) (b : Bool)
        → (sw.wait_for_cache_sync (λ x. sw.is_stopped x || sw.is_timed_out x) v).0 ≡ b
        → IsAwaited key log (
            bounded_waited
              (logged sw)
              key
              (b, ((sw.wait_for_cache_sync (λ x. sw.is_stopped x || sw.is_timed_out x) v).1, log)))
    unfolding bounded_waited
    first_wait v true h = in_time _ (laws.wait_synced _ _ h) refl
    first_wait v false h = select-IsAwaited _ _ refl (still_closed _ (laws.wait_closed _ _ h))

    -- When the goroutine has ended, its last addition of the key was made with the cache synced, unless
    -- the informer is stopped; and if the timeout came before, with the informer not stopped, the key was
    -- added once at that moment too. There is no other addition.
    pub await_sync-IsAwaited : (v : V) → IsAwaited key log (await_sync (logged sw) key (v, log))
    unfolding await_sync timeout_or_stop
    await_sync-IsAwaited v = first_wait v _ refl

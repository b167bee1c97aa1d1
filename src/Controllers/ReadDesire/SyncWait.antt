-- ===== src/Controllers/ReadDesire/SyncWait.antt =====
-- The goroutine of start in internal/controllers/readdesire/informer_manager.go that waits for the first
-- sync of an informer's cache, with timeoutOrStop. A call may find the world changed by the others.
use hyperfleet_applier.Base.{Bool, true, false, ◌||◌}
use hyperfleet_applier.Desire.Types.{Identity}

-- what the goroutine sees of an informer, of its stop channel and of the queue, in a state of the world
pub record SyncWorld (W : Type 0) : Type 0 where
  -- informer.HasSynced(), and whether stopCh is closed, and whether syncTimeout has elapsed
  pub has_synced : W → Bool
  pub is_stopped : W → Bool
  pub is_timed_out : W → Bool
  -- cache.WaitForCacheSync with a channel, which is given by when it is closed
  pub wait_for_cache_sync : (W → Bool) → W → Bool × W
  -- the moment at which a select looks at a channel
  pub look : W → W
  pub queue_add : Identity → W → W

module _ {W : Type 0} (sw : SyncWorld W) where
  -- timeoutOrStop: the merged channel is closed once one of the two is
  unfoldable pub timeout_or_stop : W → Bool
  timeout_or_stop w = sw.is_stopped w || sw.is_timed_out w

  -- the second wait, which only the stop channel ends
  unfoldable pub added_if : Identity → Bool × W → W
  added_if key (true, w) = sw.queue_add key w
  added_if key (false, w) = w

  -- the select, by whether stopCh is closed, and what follows its default
  unfoldable pub selected : Identity → Bool → W → W
  unfolding added_if
  selected key true w = w
  selected key false w = added_if key (sw.wait_for_cache_sync sw.is_stopped (sw.queue_add key w))

  -- what follows the first wait
  unfoldable pub bounded_waited : Identity → Bool × W → W
  unfolding selected
  bounded_waited key (true, w) = sw.queue_add key w
  bounded_waited key (false, w) = let u = sw.look w in selected key (sw.is_stopped u) u

  -- the goroutine
  unfoldable pub await_sync : Identity → W → W
  unfolding bounded_waited timeout_or_stop
  await_sync key w = bounded_waited key (sw.wait_for_cache_sync timeout_or_stop w)

-- ===== src/Controllers/ReadDesire/Status.antt =====
-- internal/controllers/readdesire/status.go: the statuses of a ReadDesire. `now` is the time that a new
-- condition is stamped with.
use hyperfleet_applier.Base.{ℕ, Bool, ◌&&◌, []}
use hyperfleet_applier.Base.Text.{Text}
use hyperfleet_applier.Desire.Types.{
  Condition, ReadStatus, condition_true, condition_false, reason_synced, reason_not_found,
  reason_kube_api_error, reason_pre_check_failed,
}
use hyperfleet_applier.Desire.Platform.{Platform}
use hyperfleet_applier.Controllers.Cluster.{with_condition, equal, successful}
use hyperfleet_applier.Controllers.ReadDesire.Content.{JsonCodec, semantic_content_equal}

module _ {J : Type 0} (p : Platform J) (now : ℕ) where
  unfoldable pub with_read_condition : ReadStatus → Condition → Text → ReadStatus
  with_read_condition status cond kube_content = record {
    status = with_condition p now status.status cond;
    kube_content = kube_content;
  }

  unfoldable pub synced : ReadStatus → ℕ → Text → ReadStatus
  unfolding with_read_condition
  synced status generation kube_content =
      with_read_condition status (successful condition_true generation reason_synced [])
        kube_content

  unfoldable pub not_found : ReadStatus → ℕ → ReadStatus
  unfolding with_read_condition
  not_found status generation =
      with_read_condition status (successful condition_false generation reason_not_found []) []

  unfoldable pub kube_api_error : ReadStatus → ℕ → Text → ReadStatus
  unfolding with_read_condition
  kube_api_error status generation message =
      with_read_condition status
        (successful condition_false generation reason_kube_api_error message) status.kube_content

  unfoldable pub pre_check_failed : ReadStatus → ℕ → Text → ReadStatus
  unfolding with_read_condition
  pre_check_failed status generation message =
      with_read_condition status
        (successful condition_false generation reason_pre_check_failed message) status.kube_content

module _ {J : Type 0} (p : Platform J) (json : JsonCodec) where
  unfoldable pub read_status_equal : ReadStatus → ReadStatus → Bool
  read_status_equal a b =
      equal p a.status b.status && semantic_content_equal json a.kube_content b.kube_content

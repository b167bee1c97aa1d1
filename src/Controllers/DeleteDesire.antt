-- ===== src/Controllers/DeleteDesire.antt =====
-- internal/controllers/deletedesire: controller.go and status.go. A status message is opaque text,
-- so a formatted message is the text of its parts; `now` is the time that a new status is stamped with.
use hyperfleet_applier.Base.{ℕ, Option, none, some, [], ◌++◌, if◌then◌else◌, ◌==◌}
use hyperfleet_applier.Base.Text.{Text, text_Eq, codes}
use hyperfleet_applier.Base.Exec.{Exec, ◌>>◌, pure}
use hyperfleet_applier.Base.Result.{Result, ok, err}
use hyperfleet_applier.Desire.Types.{
  Identity, Status, DeleteDesire, condition_true, condition_false, reason_deleted,
  reason_waiting_for_deletion, reason_kube_api_error, reason_pre_check_failed,
}
use hyperfleet_applier.Desire.Platform.{Platform}
use hyperfleet_applier.Controllers.Cluster.{
  Failure, KubeError, missing, no_match, other, Object, Mapping, ResourceClient, Cluster, stop_on,
  successful, error_text, with_condition,
}

module _ {J : Type 0} (p : Platform J) (now : ℕ) where
  unfoldable pub deleted : Status → ℕ → Status
  deleted status generation =
      with_condition p now status (successful condition_true generation reason_deleted [])

  unfoldable pub waiting_for_deletion : Status → ℕ → Text → Status
  waiting_for_deletion status generation msg =
      with_condition p now status
        (successful condition_false generation reason_waiting_for_deletion msg)

  unfoldable pub delete_failed : Status → ℕ → Text → Status
  delete_failed status generation msg =
      with_condition p now status (successful condition_false generation reason_kube_api_error msg)

  unfoldable pub pre_check_failed : Status → ℕ → Text → Status
  pre_check_failed status generation msg =
      with_condition p now status
        (successful condition_false generation reason_pre_check_failed msg)

-- "deletion timestamp: %s, uid: %s"
abbrev pub waiting_message : Text → Text → Text
waiting_message timestamp uid = codes "deletion timestamp: " ++ timestamp ++ codes ", uid: " ++ uid

module _ {W : Type 0} (c : Cluster W) where
  -- `r.mapper.KindFor`, with one retry after a reset of a mapper that knows no match
  unfoldable pub kind_of : Identity → W → Result KubeError (Text × Text × Text) × W
  kind_of id w = retry (c.kind_for id.group id.resource w)
    where
      retry : Result KubeError (Text × Text × Text) × W → Result KubeError (Text × Text × Text) × W
      retry (err no_match, u) = c.kind_for id.group id.resource (c.reset u)
      retry r = r

  unfoldable pub scope_client : Identity → Mapping → Result Text ResourceClient
  scope_client id mapping =
      if mapping.namespaced
      then (if id.namespace == []
          then err (codes "delete: identity namespace must not be empty")
          else ok (record { mapping = mapping; namespace = id.namespace }))
      else ok (record { mapping = mapping; namespace = [] })

  -- the mapping of a kind, and the client in its scope; an error is its text
  unfoldable pub map_kind :
      Identity → Result KubeError (Text × Text × Text) × W → Result Text ResourceClient × W
  unfolding scope_client
  map_kind id (err e, w) = (err (error_text e), w)
  map_kind id (ok (group, kind, version), w) = scoped (c.kind_mapping group kind version w)
    where
      scoped : Result KubeError Mapping × W → Result Text ResourceClient × W
      scoped (err e, u) = (err (codes "failed to resolve REST mapping: " ++ error_text e), u)
      scoped (ok mapping, u) = (scope_client id mapping, u)

  unfoldable pub setup_resource_client : Identity → W → Result Text ResourceClient × W
  unfolding kind_of map_kind
  setup_resource_client id w = map_kind id (kind_of id w)

  -- getResourceIfExist: `none` for an object that is not found
  abbrev pub existing : Result KubeError Object × W → Result KubeError (Option Object) × W
  existing (ok obj, w) = (ok (some obj), w)
  existing (err missing, w) = (ok none, w)
  existing (err no_match, w) = (err no_match, w)
  existing (err (other e), w) = (err (other e), w)

  unfoldable pub get_resource_if_exist :
      ResourceClient → Text → W → Result KubeError (Option Object) × W
  get_resource_if_exist client name w = existing (c.get client name w)

  -- A read failed: an ended context ends the pass, and otherwise the desire has failed.
  unfoldable pub read_failed : Status → Exec W Failure Status
  read_failed st = do (λ w. stop_on (c.ctx_err w)); pure st

  -- A write failed: stale leadership ends the pass as well.
  unfoldable pub write_failed : Status → Exec W Failure Status
  write_failed st = do (λ w. stop_on (c.ctx_err w)); (λ w. stop_on (c.can_write w)); pure st

module _ {W J : Type 0} (c : Cluster W) (p : Platform J) (now : ℕ) where
  -- what the GET after an accepted DELETE says
  unfoldable pub confirmed :
      DeleteDesire → Result KubeError (Option Object) × W → Result Failure Status × W
  unfolding read_failed deleted waiting_for_deletion delete_failed
  confirmed d (err e, w) =
      read_failed c
        (delete_failed p now d.status d.generation
          (codes "failed to confirm deletion: " ++ error_text e))
        w
  confirmed d (ok none, w) = (ok (deleted p now d.status d.generation), w)
  confirmed d (ok (some obj), w) = elim obj.deletion_timestamp [
    | none ↦ (
      ok (
          delete_failed p now d.status d.generation
            (codes "delete accepted but object has no deletion timestamp")),
      w,
    )
    | some at ↦
        (ok (waiting_for_deletion p now d.status d.generation (waiting_message at obj.uid)), w)
  ]

  -- what the DELETE says
  unfoldable pub delete_answered :
      ResourceClient → DeleteDesire → Result KubeError (Unit {0}) × W → Result Failure Status × W
  unfolding confirmed get_resource_if_exist write_failed deleted delete_failed
  delete_answered client d (ok _, w) =
      confirmed d (get_resource_if_exist c client d.identity.name w)
  delete_answered client d (err missing, w) = (ok (deleted p now d.status d.generation), w)
  delete_answered client d (err no_match, w) =
      write_failed c (delete_failed p now d.status d.generation (error_text no_match)) w
  delete_answered client d (err (other e), w) =
      write_failed c (delete_failed p now d.status d.generation e) w

  unfoldable pub issue_delete : ResourceClient → DeleteDesire → Exec W Failure Status
  unfolding delete_answered
  issue_delete client d = do
    (λ w. stop_on (c.ctx_err w))
    (λ w. stop_on (c.can_write w))
    (λ w. delete_answered client d (c.delete client d.identity.name w))

  -- what the first GET says
  unfoldable pub examined :
      ResourceClient
      → DeleteDesire
      → Result KubeError (Option Object) × W
      → Result Failure Status × W
  unfolding read_failed deleted waiting_for_deletion delete_failed issue_delete
  examined client d (err e, w) =
      read_failed c
        (delete_failed p now d.status d.generation
          (codes "failed to check existence: " ++ error_text e))
        w
  examined client d (ok none, w) = (ok (deleted p now d.status d.generation), w)
  examined client d (ok (some obj), w) = elim obj.deletion_timestamp [
    | none ↦ issue_delete client d w
    | some at ↦
        (ok (waiting_for_deletion p now d.status d.generation (waiting_message at obj.uid)), w)
  ]

  unfoldable pub execute_delete : ResourceClient → DeleteDesire → Exec W Failure Status
  unfolding examined get_resource_if_exist
  execute_delete client d w = examined client d (get_resource_if_exist c client d.identity.name w)

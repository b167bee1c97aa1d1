-- ===== src/Controllers/ApplyDesire.antt =====
-- internal/controllers/applydesire: controller.go (applyToCluster, checkApplyTarget) and status.go. A
-- status message is opaque text, so a formatted message is shortened to its fixed part.
use hyperfleet_applier.Base.{ℕ, not, ◌&&◌, ◌||◌, Option, none, some, [], ◌++◌, if◌then◌else◌, ◌==◌}
use hyperfleet_applier.Base.Text.{Text, text_Eq, codes}
use hyperfleet_applier.Base.Exec.{Exec, ◌>>◌, pure}
use hyperfleet_applier.Base.Result.{Result, ok, err}
use hyperfleet_applier.Desire.Types.{
  Identity, Status, ApplyDesire, condition_true, condition_false, reason_applied,
  reason_kube_api_error, reason_pre_check_failed,
}
use hyperfleet_applier.Desire.Platform.{Platform}
use hyperfleet_applier.Desire.Validate.{Error}
use hyperfleet_applier.Controllers.Cluster.{
  Failure, store, KubeError, missing, no_match, other, Object, Mapping, ResourceClient, Cluster,
  stop_on, successful, error_text, with_condition,
}

module _ {J : Type 0} (p : Platform J) (now : ℕ) where
  unfoldable pub applied : Status → ℕ → Status
  applied status generation =
      with_condition p now status (successful condition_true generation reason_applied [])

  unfoldable pub apply_failed : Status → ℕ → Text → Status
  apply_failed status generation msg =
      with_condition p now status (successful condition_false generation reason_kube_api_error msg)

  unfoldable pub pre_check_failed : Status → ℕ → Text → Status
  pre_check_failed status generation msg =
      with_condition p now status
        (successful condition_false generation reason_pre_check_failed msg)

-- checkApplyTarget: `none` accepts
unfoldable pub check_apply_target : Identity → Object → Mapping → Option Text
check_apply_target id obj mapping =
    if not (mapping.group == id.group) || not (mapping.resource == id.resource)
    then some (codes "apply: manifest resource does not match identity")
    else if not (obj.name == id.name)
    then some (codes "apply: manifest name does not match identity name")
    else if mapping.namespaced
    then (if id.namespace == []
        then some (codes "apply: identity namespace must not be empty for namespaced resource")
        else if not (obj.namespace == []) && not (obj.namespace == id.namespace)
        then some (codes "apply: manifest namespace does not match identity namespace")
        else none)
    else if not (id.namespace == [])
    then some (codes "apply: identity namespace must be empty for cluster-scoped resource")
    else none

module _ {W J : Type 0} (c : Cluster W) (p : Platform J) (now : ℕ) where
  -- RESTMapping, with one retry after a reset of a mapper that knows no match
  unfoldable pub mapping_of : Object → W → Result KubeError Mapping × W
  mapping_of obj w = retry (c.rest_mapping obj.api_version obj.kind w)
    where
      retry : Result KubeError Mapping × W → Result KubeError Mapping × W
      retry (err no_match, u) = c.rest_mapping obj.api_version obj.kind (c.reset u)
      retry (err missing, u) = (err missing, u)
      retry (err (other e), u) = (err (other e), u)
      retry (ok mapping, u) = (ok mapping, u)

  -- what the server-side apply says
  unfoldable pub apply_answered :
      ApplyDesire → Result KubeError (Unit {0}) × W → Result Failure Status × W
  unfolding applied apply_failed
  apply_answered d (ok _, w) = (ok (applied p now d.status d.generation), w)
  apply_answered d (err e, w) =
      (do
        (λ u. stop_on (c.ctx_err u))
        (λ u. stop_on (c.can_write u))
        pure (apply_failed p now d.status d.generation (error_text e)))
        w

  -- GetApplyDesire, to see that the desire still exists
  abbrev pub still_there : Result Error ApplyDesire × W → Result Failure (Unit {0}) × W
  still_there (ok _, w) = (ok tt, w)
  still_there (err e, w) = (err (store e), w)

  -- the re-check of the desire, the gates, and the apply
  unfoldable pub issue_apply : ResourceClient → Object → ApplyDesire → Exec W Failure Status
  unfolding apply_answered
  issue_apply client obj d = do
    (λ w. still_there (c.get_apply_desire d.identity w))
    (λ w. stop_on (c.ctx_err w))
    (λ w. stop_on (c.can_write w))
    (λ w. apply_answered d (c.apply client d.identity.name obj w))

  unfoldable pub apply_mapped :
      ApplyDesire → Object → Result KubeError Mapping × W → Result Failure Status × W
  apply_mapped d obj (err e, w) = (
    ok (
        pre_check_failed p now d.status d.generation
          (codes "apply: no resource mapping: " ++ error_text e)),
    w,
  )
  apply_mapped d obj (ok mapping, w) = elim (check_apply_target d.identity obj mapping) [
    | some msg ↦ (ok (pre_check_failed p now d.status d.generation msg), w)
    | none ↦
        issue_apply
          (record {
            mapping = mapping;
            namespace = if mapping.namespaced then d.identity.namespace else [];
          })
          obj d w
  ]

  -- applyToCluster
  unfoldable pub apply_to_cluster : ApplyDesire → Exec W Failure Status
  apply_to_cluster d w = elim (c.decode_manifest d.spec.kube_content) [
    | err e ↦ (
      ok (
          pre_check_failed p now d.status d.generation
            (codes "apply: manifest could not be decoded as a Kubernetes object: " ++ e)),
      w,
    )
    | ok obj ↦
        if obj.api_version == [] || obj.kind == [] || obj.name == []
        then (
          ok (
              pre_check_failed p now d.status d.generation
                (codes "apply: manifest is missing apiVersion, kind, or metadata.name")),
          w,
        )
        else apply_mapped d obj (mapping_of obj w)
  ]

-- ===== src/Controllers/Cluster.antt =====
-- What the controllers use of client-go, the desire stores and the context, as parameters. A state of
-- type `W` is the world around a pass, so that every call may find it changed. Also the status helpers
-- of internal/controllers/util/util.go.
use hyperfleet_applier.Base.{
  ℕ, Bool, true, false, ◌&&◌, Option, none, some, List, [], ◌∷◌, ◌==◌, nat_eq, length,
}
use hyperfleet_applier.Base.Text.{Text, text_Eq, codes}
use hyperfleet_applier.Base.Result.{Result, ok, err}
use hyperfleet_applier.Desire.Types.{
  Identity, Condition, Status, ApplyDesire, DeleteDesire, type_successful,
}
use hyperfleet_applier.Desire.Platform.{Platform}
use hyperfleet_applier.Desire.Validate.{Error}

-- The error of a pass or of one step of it. Wrapping by %w keeps it.
pub data Failure : Type 0 where
  canceled deadline_exceeded leadership_stale : Failure
  store : Error → Failure
  kube : Text → Failure

-- the errors of a request to the API server or to the mapper
pub data KubeError : Type 0 where
  missing no_match : KubeError
  other : Text → KubeError

-- unstructured.Unstructured, as far as the controllers read it. The timestamp is RFC 3339.
pub record Object : Type 0 where
  pub api_version : Text
  pub kind : Text
  pub name : Text
  pub namespace : Text
  pub uid : Text
  pub deletion_timestamp : Option Text

-- meta.RESTMapping: the resource, and whether its scope is a namespace
pub record Mapping : Type 0 where
  pub group : Text
  pub resource : Text
  pub namespaced : Bool

-- dynamic.ResourceInterface: a resource, in a namespace (`[]` for none)
pub record ResourceClient : Type 0 where
  pub mapping : Mapping
  pub namespace : Text

pub record Cluster (W : Type 0) : Type 0 where
  -- ctx.Err()
  pub ctx_err : W → Option Failure × W
  -- reconciler.CanWrite(ctx)
  pub can_write : W → Option Failure × W
  -- RESTMapping for an apiVersion and a kind. KindFor gives a group, a kind and a version, and
  -- RESTMapping for those is `kind_mapping`.
  pub rest_mapping : Text → Text → W → Result KubeError Mapping × W
  pub kind_for : Text → Text → W → Result KubeError (Text × Text × Text) × W
  pub kind_mapping : Text → Text → Text → W → Result KubeError Mapping × W
  -- Reset, if the mapper is a ResettableRESTMapper
  pub reset : W → W
  -- requests under a context with a timeout, for writes the one of reconciler.WriteContext
  pub get : ResourceClient → Text → W → Result KubeError Object × W
  pub delete : ResourceClient → Text → W → Result KubeError (Unit {0}) × W
  pub apply : ResourceClient → Text → Object → W → Result KubeError (Unit {0}) × W
  -- the stores
  pub list_apply_desires : Text → W → Result Error (List ApplyDesire) × W
  -- json.Unmarshal into an Unstructured
  pub decode_manifest : Text → Result Text Object
  -- errors.Is(err, context.Canceled) or errors.Is(err, context.DeadlineExceeded), on a store's error
  pub is_cancellation : Error → Bool
  pub get_apply_desire : Identity → W → Result Error ApplyDesire × W
  pub update_apply_desire_status : Identity → Status → ℕ → W → Result Error ApplyDesire × W
  pub list_delete_desires : Text → W → Result Error (List DeleteDesire) × W
  pub get_delete_desire : Identity → W → Result Error DeleteDesire × W
  pub update_delete_desire_status : Identity → Status → ℕ → W → Result Error DeleteDesire × W

module _ {W : Type 0} where
  -- `if err := check(); err != nil { return err }`
  abbrev pub stop_on : Option Failure × W → Result Failure (Unit {0}) × W
  stop_on (some e, w) = (err e, w)
  stop_on (none, w) = (ok tt, w)

abbrev pub successful : Text → ℕ → Text → Text → Condition
successful status generation reason message = record {
  type = type_successful;
  status = status;
  observed_generation = generation;
  last_transition_time = 0;
  reason = reason;
  message = message;
}

-- err.Error()
abbrev pub error_text : KubeError → Text
error_text missing = codes "not found"
error_text no_match = codes "no match"
error_text (other e) = e

module _ {J : Type 0} (p : Platform J) where
  -- WithCondition, at a time
  unfoldable pub with_condition : ℕ → Status → Condition → Status
  with_condition now status cond = record {
    conditions = p.set_status_condition now status.conditions cond;
  }

  -- `==` on metav1.Condition with both times cleared
  unfoldable pub same_condition : Condition → Condition → Bool
  same_condition a b =
      a.type == b.type
      && a.status == b.status
      && a.observed_generation == b.observed_generation
      && a.reason == b.reason
      && a.message == b.message

  unfoldable pub all_found : List Condition → List Condition → Bool
  unfolding same_condition
  all_found [] bs = true
  all_found (a ∷ rest_a) bs =
      let rest = all_found rest_a bs in
      elim (p.find_status_condition bs a.type) [
        | none ↦ false
        | some b ↦ same_condition a b && rest
      ]

  -- Equal
  unfoldable pub equal : Status → Status → Bool
  unfolding all_found
  equal a b = length a.conditions == length b.conditions && all_found a.conditions b.conditions

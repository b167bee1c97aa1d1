-- ===== src/Desire/Types.antt =====
-- pkg/desire/types.go. Go strings and byte slices are `Text`; a `nil` slice and an empty one are the
-- same text. An int64 is its two's complement bit pattern, a number below 2 ^ 64.
use hyperfleet_applier.Base.{ℕ, ◌≡◌, ◌↔◌, Bool, true, ◌&&◌, List, [], ◌∷◌, arith}
use hyperfleet_applier.Base.{ap, Eq, ◌==◌}
use hyperfleet_applier.Base.Text.{Text, codes, text_eq_iff, text_Eq}

-- A Go string type: a value may be none of the three constants, as an unset one is.
abbrev pub DesireType : Type 0
DesireType = Text

abbrev pub type_apply : DesireType
type_apply = codes "apply"

abbrev pub type_delete : DesireType
type_delete = codes "delete"

abbrev pub type_read : DesireType
type_read = codes "read"

abbrev pub initial_generation : ℕ
initial_generation = 1

abbrev pub all_types : List DesireType
all_types = type_apply ∷ type_delete ∷ type_read ∷ []

pub record Identity : Type 0 where
  pub management_cluster : Text
  pub type : DesireType
  pub group : Text
  pub resource : Text
  pub namespace : Text
  pub name : Text

unfoldable pub identity_eq : Identity → Identity → Bool
identity_eq a b =
    a.management_cluster == b.management_cluster
    && a.type == b.type
    && a.group == b.group
    && a.resource == b.resource
    && a.namespace == b.namespace
    && a.name == b.name

pub identity_eq_iff : (a b : Identity) → (identity_eq a b ≡ true) ↔ (a ≡ b)
unfolding identity_eq
identity_eq_iff a b = (
  λ h. ground (
    arith,
    text_eq_iff a.management_cluster b.management_cluster,
    text_eq_iff a.type b.type,
    text_eq_iff a.group b.group,
    text_eq_iff a.resource b.resource,
    text_eq_iff a.namespace b.namespace,
    text_eq_iff a.name b.name,
  ),
  λ h. ground (
    arith,
    ap (λ (i : Identity). i.type) h,
    text_eq_iff a.management_cluster b.management_cluster,
    text_eq_iff a.type b.type,
    text_eq_iff a.group b.group,
    text_eq_iff a.resource b.resource,
    text_eq_iff a.namespace b.namespace,
    text_eq_iff a.name b.name,
  ),
)

-- Identities are the keys of the stores' maps.
instance abbrev pub identity_Eq : Eq Identity
identity_Eq = record { test = identity_eq; test_iff = identity_eq_iff }

-- metav1.Condition; times are seconds, 0 for the zero time.
pub record Condition : Type 0 where
  pub type : Text
  pub status : Text
  pub observed_generation : ℕ
  pub last_transition_time : ℕ
  pub reason : Text
  pub message : Text

abbrev pub condition_true : Text
condition_true = codes "True"

abbrev pub condition_false : Text
condition_false = codes "False"

abbrev pub type_successful : Text
type_successful = codes "Successful"

abbrev pub reason_applied : Text
reason_applied = codes "Applied"

abbrev pub reason_deleted : Text
reason_deleted = codes "Deleted"

abbrev pub reason_synced : Text
reason_synced = codes "Synced"

abbrev pub reason_waiting_for_deletion : Text
reason_waiting_for_deletion = codes "WaitingForDeletion"

abbrev pub reason_not_found : Text
reason_not_found = codes "NotFound"

abbrev pub reason_kube_api_error : Text
reason_kube_api_error = codes "KubeAPIError"

abbrev pub reason_pre_check_failed : Text
reason_pre_check_failed = codes "PreCheckFailed"

pub record Status : Type 0 where
  pub conditions : List Condition

pub record ApplySpec : Type 0 where
  pub kube_content : Text

pub record ApplyDesire : Type 0 where
  pub identity : Identity
  pub owner : Text
  pub origin_id : Text
  pub spec : ApplySpec
  pub status : Status
  pub generation : ℕ
  pub version : ℕ

pub record DeleteDesire : Type 0 where
  pub identity : Identity
  pub owner : Text
  pub origin_id : Text
  pub status : Status
  pub generation : ℕ
  pub version : ℕ

pub record ReadStatus : Type 0 where
  pub status : Status
  pub kube_content : Text

pub record ReadDesire : Type 0 where
  pub identity : Identity
  pub owner : Text
  pub origin_id : Text
  pub target_version : Text
  pub status : ReadStatus
  pub generation : ℕ
  pub version : ℕ

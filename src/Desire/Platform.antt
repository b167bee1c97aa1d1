-- ===== src/Desire/Platform.antt =====
-- What the contract uses of code outside the repository: apimachinery's validators and condition
-- helpers, and encoding/json. Each is a parameter; the laws are their documented behaviour.
use hyperfleet_applier.Base.{ℕ, Bool, Option, List}
use hyperfleet_applier.Base.Text.{Text}
use hyperfleet_applier.Desire.Types.{Condition}

-- `J` is the type of decoded JSON values.
pub record Platform (J : Type 0) : Type 0 where
  -- validation.IsDNS1123Label and the like returned no message
  pub is_dns1123_label : Text → Bool
  pub is_dns1035_label : Text → Bool
  pub is_dns1123_subdomain : Text → Bool
  -- json.Valid
  pub json_valid : Text → Bool
  -- json.Decoder.Decode with UseNumber; `none` for an error
  pub json_decode : Text → Option J
  -- reflect.DeepEqual on decoded values
  pub deep_equal : J → J → Bool
  -- meta.FindStatusCondition
  pub find_status_condition : List Condition → Text → Option Condition
  -- meta.SetStatusCondition, with the time that it stamps
  pub set_status_condition : ℕ → List Condition → Condition → List Condition

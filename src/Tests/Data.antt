-- ===== src/Tests/Data.antt =====
-- The library functions and the records that the runs use.
use hyperfleet_applier.Base.{ℕ, true, Option, none, some, List, [], ◌∷◌, if◌then◌else◌, ◌==◌}
use hyperfleet_applier.Base.Text.{Text, codes, text_eq, text_Eq}
use hyperfleet_applier.Desire.Types.{
  Identity, Condition, Status, ApplySpec, ApplyDesire, DeleteDesire, type_apply, type_delete,
  type_successful, condition_true, reason_deleted,
}
use hyperfleet_applier.Desire.Platform.{Platform}
use hyperfleet_applier.Memory.Record.{ResourceRecord, Memory, empty_status, empty_read_status}

unfoldable pub find : List Condition → Text → Option Condition
find [] t = none
find (c ∷ cs) t = if c.type == t then some c else find cs t

unfoldable pub set : ℕ → List Condition → Condition → List Condition
set now cs c = record c { last_transition_time = now } ∷ cs

abbrev pub platform : Platform Text
platform = record {
  is_dns1123_label = λ _. true;
  is_dns1035_label = λ _. true;
  is_dns1123_subdomain = λ _. true;
  json_valid = λ _. true;
  json_decode = some;
  deep_equal = text_eq;
  find_status_condition = find;
  set_status_condition = set;
}

abbrev pub apply_id : Identity
apply_id = record {
  management_cluster = codes "mc";
  type = type_apply;
  group = codes "";
  resource = codes "pods";
  namespace = codes "ns";
  name = codes "web";
}

abbrev pub delete_id : Identity
delete_id = record apply_id { type = type_delete }

abbrev pub spec_1 : ApplySpec
spec_1 = record { kube_content = codes "{}" }

abbrev pub spec_2 : ApplySpec
spec_2 = record { kube_content = codes "[]" }

abbrev pub deleted_condition : Condition
deleted_condition = record {
  type = type_successful;
  status = condition_true;
  observed_generation = 1;
  last_transition_time = 0;
  reason = reason_deleted;
  message = [];
}

abbrev pub deleted_status : Status
deleted_status = record { conditions = deleted_condition ∷ [] }

abbrev pub desire_1 : ApplyDesire
desire_1 = record {
  identity = apply_id;
  owner = codes "me";
  origin_id = codes "o";
  spec = spec_1;
  status = empty_status;
  generation = 1;
  version = 1;
}

abbrev pub delete_1 : DeleteDesire
delete_1 = record {
  identity = delete_id;
  owner = codes "me";
  origin_id = codes "o";
  status = empty_status;
  generation = 1;
  version = 1;
}

abbrev pub record_1 : ResourceRecord
record_1 = record {
  apply = some spec_1;
  identity = apply_id;
  origin_id = codes "o";
  owner = codes "me";
  target_version = [];
  read_status = empty_read_status;
  status = empty_status;
  generation = 1;
  version = 1;
}

abbrev pub delete_record_1 : ResourceRecord
delete_record_1 = record record_1 { apply = none; identity = delete_id }

abbrev pub empty_store : Memory
empty_store = record { items = []; conflict_total = 0 }

abbrev pub store_1 : Memory
store_1 = record { items = (apply_id, record_1) ∷ []; conflict_total = 0 }

-- after a create of a DeleteDesire, and after the deletion is confirmed
abbrev pub pending_store : Memory
pending_store = record { items = (delete_id, delete_record_1) ∷ []; conflict_total = 0 }

abbrev pub confirmed_store : Memory
confirmed_store = record {
  items = (delete_id, record delete_record_1 { status = deleted_status; version = 2 }) ∷ [];
  conflict_total = 0;
}

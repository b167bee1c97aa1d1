-- ===== src/Tests/Controllers.antt =====
-- Runs of the controllers and of the leadership gate.
use hyperfleet_applier.Base.{
  ◌≡◌, ◌↔◌, refl, Bool, true, false, some, none, List, [], ◌∷◌, ◌≤◌, ◌+◌, arith,
}
use hyperfleet_applier.Base.Text.{codes, text_eq, text_eq_iff}
use hyperfleet_applier.Base.Exec.{◌>>=◌}
use hyperfleet_applier.Base.Result.{ok, err}
use hyperfleet_applier.Desire.Contract.{is_deleted}
use hyperfleet_applier.Leadership.Lock.{
  Write, after_writes, gate_can_write, remaining, write_timeout, write_lease, mark_success,
  since_last_success,
}
use hyperfleet_applier.Leadership.Freshness.{Fresh, gate_can_write_iff, write_timeout_lem}
use hyperfleet_applier.Controllers.Cluster.{
  Cluster, Object, Mapping, ResourceClient, missing, with_condition,
}
use hyperfleet_applier.Controllers.ApplyDesire.{
  check_apply_target, apply_to_cluster, apply_mapped, issue_apply, apply_answered, mapping_of,
  applied,
}
use hyperfleet_applier.Controllers.DeleteDesire.{
  execute_delete, examined, get_resource_if_exist, issue_delete, delete_answered, deleted,
}
use hyperfleet_applier.Controllers.Target.{Targets, check_apply_target_iff}
use hyperfleet_applier.Controllers.Absent.{IsConditions, Absent, execute_delete-Absent}
use hyperfleet_applier.Controllers.Applied.{IsApplied, Sent, apply_to_cluster-Sent}
use hyperfleet_applier.Tests.Data.{platform, apply_id, desire_1, delete_1, find, set}

abbrev object : Object
object = record {
  api_version = codes "v1";
  kind = codes "Pod";
  name = codes "web";
  namespace = [];
  uid = codes "u";
  deletion_timestamp = none;
}

abbrev mapping : Mapping
mapping = record { group = []; resource = codes "pods"; namespaced = true }

-- The world is whether the object exists; DELETE removes it.
abbrev cluster : Cluster Bool
cluster = record {
  ctx_err = λ w. (none, w);
  can_write = λ w. (none, w);
  rest_mapping = λ _ _ w. (ok mapping, w);
  kind_for = λ _ _ w. (ok ([], codes "Pod", codes "v1"), w);
  kind_mapping = λ _ _ _ w. (ok mapping, w);
  reset = λ w. w;
  get = λ _ _ w. elim w [ true ↦ (ok object, true) | false ↦ (err missing, false) ];
  delete = λ _ _ w. (ok tt, false);
  apply = λ _ _ _ w. (ok tt, true);
  list_apply_desires = λ _ w. (ok (desire_1 ∷ []), w);
  decode_manifest = λ _. ok object;
  is_cancellation = λ _. false;
  get_apply_desire = λ _ w. (ok desire_1, w);
  update_apply_desire_status = λ _ _ _ w. (ok desire_1, w);
  list_delete_desires = λ _ w. (ok (delete_1 ∷ []), w);
  get_delete_desire = λ _ w. (ok delete_1, w);
  update_delete_desire_status = λ _ _ _ w. (ok delete_1, w);
}

conditions : IsConditions platform
unfolding find set
conditions = record {
  find_set = λ now cs cond. (now, rw ((text_eq_iff cond.type cond.type).1 refl));
}

check_apply_target_iff_example :
    (check_apply_target apply_id object mapping ≡ none) ↔ Targets apply_id object mapping
check_apply_target_iff_example = check_apply_target_iff apply_id object mapping

abbrev client : ResourceClient
client = record { mapping = mapping; namespace = codes "ns" }

removed :
    execute_delete cluster platform 7 client delete_1 true
    ≡ (ok (deleted platform 7 delete_1.status 1), false)
unfolding execute_delete examined get_resource_if_exist issue_delete delete_answered ◌>>=◌
removed = refl

reports_deleted : is_deleted platform (deleted platform 7 delete_1.status 1) ≡ true
unfolding is_deleted deleted with_condition find set text_eq
reports_deleted = refl

execute_delete-Absent_example : Absent cluster client (codes "web") false
execute_delete-Absent_example =
    execute_delete-Absent cluster platform conditions 7 client delete_1 true false
      (deleted platform 7 delete_1.status 1) removed reports_deleted

sent :
    apply_to_cluster cluster platform 7 desire_1 false
    ≡ (ok (applied platform 7 desire_1.status 1), true)
unfolding apply_to_cluster apply_mapped issue_apply apply_answered mapping_of check_apply_target
    text_eq ◌>>=◌
sent = refl

reports_applied : IsApplied platform (applied platform 7 desire_1.status 1)
unfolding applied with_condition find set text_eq
reports_applied = (_, refl, refl)

apply_to_cluster-Sent_example : Sent cluster desire_1 true
apply_to_cluster-Sent_example =
    apply_to_cluster-Sent cluster platform conditions 7 desire_1 false true
      (applied platform 7 desire_1.status 1) sent reports_applied

abbrev writes : List Write
writes = record { started = 30; succeeded = false } ∷ record { started = 20; succeeded = true } ∷ []

gate_can_write_iff_example :
    ((gate_can_write 10 25 (after_writes writes)).0 ≡ true) ↔ Fresh 10 25 writes
gate_can_write_iff_example = gate_can_write_iff 10 25 writes (omega arith)

earlier : after_writes writes ≤ 25
unfolding after_writes write_lease mark_success
earlier = omega arith

open_gate : (gate_can_write 10 25 (after_writes writes)).0 ≡ true
unfolding after_writes write_lease mark_success gate_can_write since_last_success
open_gate = refl

write_timeout_lem_example :
    (25 + write_timeout (some (remaining 10 25 (after_writes writes))) 30 ≤ 25 + 30)
    × (25 + write_timeout (some (remaining 10 25 (after_writes writes))) 30
        ≤ after_writes writes + 10)
write_timeout_lem_example = write_timeout_lem 10 25 30 writes (omega arith) earlier open_gate

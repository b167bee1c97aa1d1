-- ===== src/Controllers/Absent.antt =====
-- What it takes for executeDelete to report a deletion
-- (internal/controllers/deletedesire/controller.go).
use hyperfleet_applier.Controllers.DeleteDesire.{
  waiting_message, waiting_for_deletion, delete_failed, get_resource_if_exist, existing,
  read_failed, write_failed, confirmed, delete_answered, issue_delete, examined, execute_delete,
}
use hyperfleet_applier.Base.Result.{Result, ok, err, ok_eq}
use hyperfleet_applier.Base.{
  ℕ, ◌≡◌, ◌⊎◌, inl, inr, refl, sym, ◌∙◌, ap, true, false, Option, none, some, List, ◌==◌, ◌&&◌,
}
use hyperfleet_applier.Base.Text.{text_eq, Text, text_Eq}
use hyperfleet_applier.Base.Exec.{Exec, bind_ok}
use hyperfleet_applier.Desire.Types.{
  Condition, Status, DeleteDesire, condition_true, condition_false, reason_deleted,
}
use hyperfleet_applier.Desire.Platform.{Platform}
use hyperfleet_applier.Desire.Contract.{is_deleted}
use hyperfleet_applier.Controllers.Cluster.{
  Failure, KubeError, missing, no_match, other, Object, ResourceClient, Cluster, stop_on,
  with_condition, successful,
}

-- A condition that meta.SetStatusCondition sets is the one that meta.FindStatusCondition finds, but
-- for its time.
module _ {J : Type 0} (p : Platform J) where
  pub record IsConditions : Type 0 where
    pub find_set :
        (now : ℕ) (cs : List Condition) (cond : Condition)
        → (time : ℕ) × (p.find_status_condition (p.set_status_condition now cs cond) cond.type
            ≡ some (record cond { last_transition_time = time }))

-- the last request, which left the world in the state `t`, was answered by NotFound
abbrev pub Absent : {W : Type 0} → Cluster W → ResourceClient → Text → W → Type 0
Absent {W} c client name t =
    (u : W) × ((c.get client name u ≡ (err missing, t))
      ⊎ (c.delete client name u ≡ (err missing, t)))

pub pair-fst :
    {A B : Type 0} {a a' : A} {b b' : B}
    → ◌≡◌ {A = Result Failure A × B} (ok a, b) (ok a', b')
    → a ≡ a'
pair-fst {A} {B} h = ok_eq (ap (λ (x : Result Failure A × B). x.0) h)

module _ {J : Type 0} (p : Platform J) where
  not_deleted :
      IsConditions p
      → (now : ℕ) (status : Status) (generation : ℕ) (reason message : Text)
      → is_deleted p
          (with_condition p now status (successful condition_false generation reason message))
        ≡ false
  unfolding is_deleted with_condition text_eq
  not_deleted laws now status generation reason message =
      let (time, h) =
        laws.find_set now status.conditions
          (successful condition_false generation reason message) in
      ap
        (λ (o : Option Condition). elim o [
          | none ↦ false
          | some k ↦ k.status == condition_true && k.reason == reason_deleted
        ])
        h

module _ {W : Type 0} (c : Cluster W) where
  pub stop_on_ok :
      (x : Option Failure × W) {a : Unit {0}} → (stop_on x).0 ≡ ok a → x ≡ (none, (stop_on x).1)
  stop_on_ok (none, w) h = refl
  stop_on_ok (some e, w) h = cc

  read_failed_ok : (st st' : Status) (w t : W) → read_failed c st w ≡ (ok st', t) → st' ≡ st
  unfolding read_failed
  read_failed_ok st st' w t h =
      let (_, e, k) = bind_ok (λ u. stop_on (c.ctx_err u)) _ w h in sym (pair-fst k)

  write_failed_ok : (st st' : Status) (w t : W) → write_failed c st w ≡ (ok st', t) → st' ≡ st
  unfolding write_failed
  write_failed_ok st st' w t h =
      let (_, e, k) = bind_ok (λ u. stop_on (c.ctx_err u)) _ w h in
      let (_, e', k') = bind_ok (λ u. stop_on (c.can_write u)) _ _ k in sym (pair-fst k')

  existing-none :
      (x : Result KubeError Object × W) (t : W) → existing c x ≡ (ok none, t) → x ≡ (err missing, t)
  existing-none (ok obj, u) t h = cc (ap (λ (x : Result KubeError (Option Object) × W). x.0) h)
  existing-none (err missing, u) t h =
      ap (λ (x : Result KubeError (Option Object) × W). (err missing, x.1)) h
  existing-none (err no_match, u) t h =
      cc (ap (λ (x : Result KubeError (Option Object) × W). x.0) h)
  existing-none (err (other e), u) t h =
      cc (ap (λ (x : Result KubeError (Option Object) × W). x.0) h)

module _ {W J : Type 0} (c : Cluster W) (p : Platform J) (laws : IsConditions p) (now : ℕ)
    (client : ResourceClient) (d : DeleteDesire) where
  -- a status that is not that of a deletion
  not_absent :
      (st : Status) (generation : ℕ) (reason message : Text) {A : Type 0}
      → st ≡ with_condition p now d.status (successful condition_false generation reason message)
      → is_deleted p st ≡ true
      → A
  not_absent st generation reason message e y =
      cc (sym y ∙ ap (is_deleted p) e ∙ not_deleted p laws now d.status generation reason message)

  -- a status by the deletion timestamp of an object
  stamped :
      (o : Option Text) (e st : Status) (f : Text → Status) (u t : W)
      → ◌≡◌ {A = Result Failure Status × W}
          (elim o [ none ↦ (ok e, u) | some at ↦ (ok (f at), u) ])
          (ok st, t)
      → (st ≡ e) ⊎ ((at : Text) × (st ≡ f at))
  stamped none e st f u t h = inl (sym (pair-fst h))
  stamped (some at) e st f u t h = inr (at, sym (pair-fst h))

  in_progress :
      (o : Option Text) (st : Status) (f : Text → Status) (k : Exec W Failure Status) (u t : W)
      → (elim o [ none ↦ k u | some at ↦ (ok (f at), u) ]) ≡ (ok st, t)
      → (k u ≡ (ok st, t)) ⊎ ((at : Text) × (st ≡ f at))
  in_progress none st f k u t h = inl h
  in_progress (some at) st f k u t h = inr (at, sym (pair-fst h))

  confirmed-Absent :
      (x : Result KubeError (Option Object) × W) (t : W) (st : Status)
      → (x ≡ (ok none, t) → Absent c client d.identity.name t)
      → confirmed c p now d x ≡ (ok st, t)
      → is_deleted p st ≡ true
      → Absent c client d.identity.name t
  unfolding confirmed delete_failed waiting_for_deletion
  confirmed-Absent (ok none, u) t st gone h y =
      gone (ap (λ (r : Result Failure Status × W). (ok none, r.1)) h)
  confirmed-Absent (err x, u) t st gone h y = not_absent st _ _ _ (read_failed_ok c _ st u t h) y
  confirmed-Absent (ok (some obj), u) t st gone h y =
      elim (stamped obj.deletion_timestamp _ st _ u t h) [
        | inl e ↦ not_absent st _ _ _ e y
        | inr (at, e) ↦ not_absent st _ _ _ e y
      ]

  lookup-Absent :
      (w t : W)
      → get_resource_if_exist c client d.identity.name w ≡ (ok none, t)
      → Absent c client d.identity.name t
  unfolding get_resource_if_exist
  lookup-Absent w t h = (w, inl (existing-none c (c.get client d.identity.name w) t h))

  delete_answered-Absent :
      (w t : W) (x : Result KubeError (Unit {0}) × W) (st : Status)
      → c.delete client d.identity.name w ≡ x
      → delete_answered c p now client d x ≡ (ok st, t)
      → is_deleted p st ≡ true
      → Absent c client d.identity.name t
  unfolding delete_answered delete_failed
  delete_answered-Absent w t (ok _, u) st e h y =
      confirmed-Absent (get_resource_if_exist c client d.identity.name u) t st (lookup-Absent u t) h
        y
  delete_answered-Absent w t (err missing, u) st e h y =
      (w, inr (e ∙ ap (λ (r : Result Failure Status × W). (err missing, r.1)) h))
  delete_answered-Absent w t (err no_match, u) st e h y =
      not_absent st _ _ _ (write_failed_ok c _ st u t h) y
  delete_answered-Absent w t (err (other x), u) st e h y =
      not_absent st _ _ _ (write_failed_ok c _ st u t h) y

  issue_delete-Absent :
      (w t : W) (st : Status)
      → issue_delete c p now client d w ≡ (ok st, t)
      → is_deleted p st ≡ true
      → Absent c client d.identity.name t
  unfolding issue_delete
  issue_delete-Absent w t st h y =
      let (_, e, k) = bind_ok (λ u. stop_on (c.ctx_err u)) _ w h in
      let (_, e', k') = bind_ok (λ u. stop_on (c.can_write u)) _ _ k in
      delete_answered-Absent _ t _ st refl k' y

  examined-Absent :
      (x : Result KubeError (Option Object) × W) (t : W) (st : Status)
      → (x ≡ (ok none, t) → Absent c client d.identity.name t)
      → examined c p now client d x ≡ (ok st, t)
      → is_deleted p st ≡ true
      → Absent c client d.identity.name t
  unfolding examined delete_failed waiting_for_deletion
  examined-Absent (ok none, u) t st gone h y =
      gone (ap (λ (r : Result Failure Status × W). (ok none, r.1)) h)
  examined-Absent (err x, u) t st gone h y = not_absent st _ _ _ (read_failed_ok c _ st u t h) y
  examined-Absent (ok (some obj), u) t st gone h y =
      elim (in_progress obj.deletion_timestamp st
        (λ at. waiting_for_deletion p now d.status d.generation (waiting_message at obj.uid))
        (issue_delete c p now client d) u t h) [
          | inl k ↦ issue_delete-Absent u t st k y
          | inr (at, e) ↦ not_absent st _ _ _ e y
        ]

-- executeDelete only gives a status that IsDeleted accepts if the API server answered NotFound to its
-- last request, which was a GET or DELETE of the object. It is assumed that the condition that
-- SetStatusCondition sets is the one that FindStatusCondition finds.
pub execute_delete-Absent :
    {W J : Type 0} (c : Cluster W) (p : Platform J)
    → IsConditions p
    → (now : ℕ) (client : ResourceClient) (d : DeleteDesire) (w t : W) (st : Status)
    → execute_delete c p now client d w ≡ (ok st, t)
    → is_deleted p st ≡ true
    → Absent c client d.identity.name t
unfolding execute_delete
execute_delete-Absent c p laws now client d w t st h y =
    examined-Absent c p laws now client d (get_resource_if_exist c client d.identity.name w) t st
      (lookup-Absent c p laws now client d w t) h y

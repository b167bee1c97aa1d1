-- ===== src/Controllers/Applied.antt =====
-- What it takes for applyToCluster to report an apply (internal/controllers/applydesire/controller.go).
use hyperfleet_applier.Desire.Validate.{Error}
use hyperfleet_applier.Base.{
  ◌++◌, ℕ, ◌≡◌, ◌⊎◌, inl, inr, refl, sym, ◌∙◌, ap, Bool, true, false, Option, none, some, ◌==◌,
  if◌then◌else◌, [], ◌||◌,
}
use hyperfleet_applier.Base.Text.{codes, Text, text_eq, text_eq_iff, text_Eq}
use hyperfleet_applier.Base.Result.{Result, ok, err}
use hyperfleet_applier.Base.Exec.{◌>>=◌, Exec, bind_ok, pure}
use hyperfleet_applier.Desire.Types.{
  Condition, Status, ApplyDesire, type_successful, reason_applied,
}
use hyperfleet_applier.Desire.Platform.{Platform}
use hyperfleet_applier.Controllers.Cluster.{
  Failure, KubeError, Object, Mapping, Cluster, stop_on, with_condition, successful,
}
use hyperfleet_applier.Controllers.ApplyDesire.{
  apply_failed, pre_check_failed, check_apply_target, still_there, apply_answered, issue_apply,
  apply_mapped, mapping_of, apply_to_cluster,
}
use hyperfleet_applier.Controllers.Target.{Targets, check_apply_target_iff}
use hyperfleet_applier.Controllers.Absent.{IsConditions, pair-fst, stop_on_ok}

-- the Successful condition has the reason Applied
abbrev pub IsApplied : {J : Type 0} → Platform J → Status → Type 0
IsApplied p st =
    (cond : Condition) × (p.find_status_condition st.conditions type_successful ≡ some cond)
    × (cond.reason ≡ reason_applied)

-- The last steps of a run that left the world in the state `t`: the desire was still in the store, the
-- context had not ended, the gate allowed a write, and the API server accepted the apply of an object
-- that the identity names.
module _ {W : Type 0} (c : Cluster W) (d : ApplyDesire) (t : W) where
  pub record Sent : Type 0 where
    pub obj : Object
    pub mapping : Mapping
    pub targets : Targets d.identity obj mapping
    pub start : W
    pub checked : W
    pub asked : W
    pub sent : W
    pub found : ApplyDesire
    pub present : c.get_apply_desire d.identity start ≡ (ok found, checked)
    pub live : c.ctx_err checked ≡ (none, asked)
    pub allowed : c.can_write asked ≡ (none, sent)
    pub accepted :
        c.apply
          (record {
            mapping = mapping;
            namespace = if mapping.namespaced then d.identity.namespace else [];
          })
          d.identity.name
          obj
          sent
        ≡ (ok tt, t)

module _ {W J : Type 0} (c : Cluster W) (p : Platform J) (laws : IsConditions p) (now : ℕ)
    (d : ApplyDesire) where
  not_applied :
      (st : Status) (status reason message : Text) (generation : ℕ) {A : Type 0}
      → st ≡ with_condition p now d.status (successful status generation reason message)
      → (reason == reason_applied) ≡ false
      → IsApplied p st
      → A
  unfolding with_condition
  not_applied st status reason message generation e n (cond, at, r) =
      let (time, h) =
        laws.find_set now d.status.conditions (successful status generation reason message) in
      let same : reason ≡ reason_applied =
        ap (λ (k : Condition). k.reason)
          (some_eq (
            sym h
            ∙ sym (ap (λ (s : Status). p.find_status_condition s.conditions type_successful) e)
            ∙ at))
        ∙ r in
      cc (sym n ∙ (text_eq_iff reason reason_applied).1 same)
    where
      some_eq : {a b : Condition} → some a ≡ some b → a ≡ b
      some_eq q = cc q

  failed_ok :
      (st st' : Status) (w t : W)
      → ((λ u. stop_on (c.ctx_err u)) >>= λ _. (λ u. stop_on (c.can_write u)) >>= λ _. pure st) w
        ≡ (ok st', t)
      → st' ≡ st
  failed_ok st st' w t h =
      let (_, e, k) = bind_ok (λ u. stop_on (c.ctx_err u)) _ w h in
      let (_, e', k') = bind_ok (λ u. stop_on (c.can_write u)) _ _ k in sym (pair-fst k')

  answered-accepted :
      (x : Result KubeError (Unit {0}) × W) (t : W) (st : Status)
      → apply_answered c p now d x ≡ (ok st, t)
      → IsApplied p st
      → x ≡ (ok tt, t)
  unfolding apply_answered apply_failed text_eq
  answered-accepted (ok _, u) t st h y = ap (λ (r : Result Failure Status × W). (ok tt, r.1)) h
  answered-accepted (err e, u) t st h y = not_applied st _ _ _ _ (failed_ok _ st u t h) refl y

  still_there_ok :
      (x : Result Error ApplyDesire × W) {a : Unit {0}}
      → (still_there c p now x).0 ≡ ok a
      → (found : ApplyDesire) × (x ≡ (ok found, (still_there c p now x).1))
  still_there_ok (ok found, u) h = (found, refl)
  still_there_ok (err e, u) h = cc

  issued-Sent :
      (obj : Object) (mapping : Mapping)
      → check_apply_target d.identity obj mapping ≡ none
      → (w t : W) (st : Status)
      → issue_apply c p now
          (record {
            mapping = mapping;
            namespace = if mapping.namespaced then d.identity.namespace else [];
          })
          obj
          d
          w
        ≡ (ok st, t)
      → IsApplied p st
      → Sent c d t
  unfolding issue_apply
  issued-Sent obj mapping target w t st h y =
      let (_, g₁, k₁) =
        bind_ok (λ u. still_there c p now (c.get_apply_desire d.identity u)) _ w h in
      let (found, present) = still_there_ok (c.get_apply_desire d.identity w) g₁ in
      let checked = (still_there c p now (c.get_apply_desire d.identity w)).1 in
      let (_, g₂, k₂) = bind_ok (λ u. stop_on (c.ctx_err u)) _ _ k₁ in
      let asked = (stop_on (c.ctx_err checked)).1 in
      let (_, g₃, k₃) = bind_ok (λ u. stop_on (c.can_write u)) _ _ k₂ in
      record {
        obj = obj;
        mapping = mapping;
        targets = (check_apply_target_iff d.identity obj mapping).0 target;
        start = w;
        checked = checked;
        asked = asked;
        sent = (stop_on (c.can_write asked)).1;
        found = found;
        present = present;
        live = stop_on_ok c (c.ctx_err checked) g₂;
        allowed = stop_on_ok c (c.can_write asked) g₃;
        accepted = answered-accepted _ t st k₃ y;
      }

  checked :
      (o : Option Text) (f : Text → Status) (k : Exec W Failure Status) (v z : W) (s : Status)
      → (elim o [ some m ↦ (ok (f m), v) | none ↦ k v ]) ≡ (ok s, z)
      → ((o ≡ none) × (k v ≡ (ok s, z))) ⊎ ((m : Text) × (s ≡ f m))
  checked none f k v z s q = inl (refl, q)
  checked (some m) f k v z s q = inr (m, sym (pair-fst q))

  mapped-Sent :
      (obj : Object) (x : Result KubeError Mapping × W) (t : W) (st : Status)
      → apply_mapped c p now d obj x ≡ (ok st, t)
      → IsApplied p st
      → Sent c d t
  unfolding apply_mapped pre_check_failed text_eq
  mapped-Sent obj (err e, u) t st h y = not_applied st _ _ _ _ (sym (pair-fst h)) refl y
  mapped-Sent obj (ok mapping, u) t st h y =
      elim (checked (check_apply_target d.identity obj mapping)
        (λ msg. pre_check_failed p now d.status d.generation msg)
        (issue_apply c p now
          (record {
            mapping = mapping;
            namespace = if mapping.namespaced then d.identity.namespace else [];
          })
          obj d)
        u t st h) [
          | inl (n, k) ↦ issued-Sent obj mapping n u t st k y
          | inr (msg, e) ↦ not_applied st _ _ _ _ e refl y
        ]

  decoded :
      (x : Result Text Object) (f : Text → Status) (k : Object → Result Failure Status × W)
      (w t : W) (st : Status)
      → (elim x [ err e ↦ (ok (f e), w) | ok obj ↦ k obj ]) ≡ (ok st, t)
      → ((e : Text) × (st ≡ f e)) ⊎ ((obj : Object) × (k obj ≡ (ok st, t)))
  decoded (err e) f k w t st q = inl (e, sym (pair-fst q))
  decoded (ok obj) f k w t st q = inr (obj, q)

  complete :
      (b : Bool) (s : Status) (k : Result Failure Status × W) (w t : W) (st : Status)
      → (if b then (ok s, w) else k) ≡ (ok st, t)
      → (st ≡ s) ⊎ (k ≡ (ok st, t))
  complete true s k w t st q = inl (sym (pair-fst q))
  complete false s k w t st q = inr q

  -- applyToCluster only reports Applied if its last request was an apply that the API server accepted,
  -- of an object that the identity names, right after the desire was found in the store again, the
  -- context had not ended and the gate allowed a write. It is assumed that the condition that
  -- SetStatusCondition sets is the one that FindStatusCondition finds.
  pub apply_to_cluster-Sent :
      (w t : W) (st : Status)
      → apply_to_cluster c p now d w ≡ (ok st, t)
      → IsApplied p st
      → Sent c d t
  unfolding apply_to_cluster pre_check_failed text_eq
  apply_to_cluster-Sent w t st h y =
      elim (decoded (c.decode_manifest d.spec.kube_content)
        (λ e.
          pre_check_failed p now d.status d.generation
            (codes "apply: manifest could not be decoded as a Kubernetes object: " ++ e))
        (λ obj.
          if obj.api_version == [] || obj.kind == [] || obj.name == []
          then (
            ok (
                pre_check_failed p now d.status d.generation
                  (codes "apply: manifest is missing apiVersion, kind, or metadata.name")),
            w,
          )
          else apply_mapped c p now d obj (mapping_of c p now obj w))
        w t st h) [
          | inl (e, q) ↦ not_applied st _ _ _ _ q refl y
          | inr (obj, q) ↦
              elim (complete (obj.api_version == [] || obj.kind == [] || obj.name == []) _ _ w t st
                q) [ inl e ↦ not_applied st _ _ _ _ e refl y | inr k ↦ mapped-Sent obj _ t st k y ]
        ]

-- ===== src/Memory/Access.antt =====
-- What the in-memory store's operations on one desire need in order to succeed, and what they then
-- leave: inversions of a success, and the results on a record that is known.
use hyperfleet_applier.Base.{
  ◌≢◌, ℕ, ◌≡◌, refl, sym, ◌∙◌, ap, Bool, true, false, some, eqb, eqb_iff, ◌==◌, arith, subst,
}
use hyperfleet_applier.Base.Text.{Text, text_Eq, text_eq_iff}
use hyperfleet_applier.Base.Dict.{lookup, insert}
use hyperfleet_applier.Base.Exec.{bind_ok, bind_ok_same, bind-eq, bind-err, ◌>>=◌, ◌>>◌, pure, lift}
use hyperfleet_applier.Base.Result.{Result, ok, err, guard}
use hyperfleet_applier.Desire.Types.{
  type_apply, Identity, identity_Eq, Status, ApplySpec, ApplyDesire,
}
use hyperfleet_applier.Desire.Platform.{Platform}
use hyperfleet_applier.Desire.Validate.{Error, not_found, version_conflict, validate_spec}
use hyperfleet_applier.Memory.Record.{
  ResourceRecord, Memory, Op, check_owner_in, store_record, project_apply_desire,
}
use hyperfleet_applier.Memory.Apply.{
  find_apply, get_apply_desire, update_apply_desire_spec, update_apply_desire_status,
  delete_apply_desire, respecified, with_status,
}
use hyperfleet_applier.Memory.Facts.{find_apply_ok, find_apply-keeps, check_owner_in_ok}

pub guard_ok : {E : Type 0} (b : Bool) (e : E) {a : Unit {0}} → guard b e ≡ ok a → b ≡ true
guard_ok true e h = refl
guard_ok false e h = cc

check_owner_in_ok_same :
    (existing attempted : Text) (s : Memory) {a : Unit {0}}
    → (check_owner_in existing attempted s).0 ≡ ok a
    → (check_owner_in existing attempted s).1 ≡ s
unfolding check_owner_in
check_owner_in_ok_same existing attempted s h = ground arith

stale_guard :
    (have want : ℕ) (s : Memory)
    → have ≢ want
    → lift {E = Error} (guard (eqb have want) version_conflict) s ≡ (err version_conflict, s)
stale_guard have want s n = ground (arith, eqb_iff have want)

check_owner_in-same :
    (existing attempted : Text) (s : Memory)
    → existing ≡ attempted
    → check_owner_in existing attempted s ≡ (ok tt, s)
unfolding check_owner_in
check_owner_in-same existing attempted s h = ground (arith, text_eq_iff existing attempted)

pub owner_ok :
    {A : Type 0} (existing attempted : Text) (f : Unit {0} → Op A) (s : Memory) {d : A} {t : Memory}
    → (check_owner_in existing attempted >>= f) s ≡ (ok d, t)
    → (existing ≡ attempted) × (f tt s ≡ (ok d, t))
owner_ok existing attempted f s {d} {t} h =
    let (_, e, k) = bind_ok (check_owner_in existing attempted) f s h in
    (
      check_owner_in_ok existing attempted s e,
      subst (λ u. f tt u ≡ (ok d, t)) (check_owner_in_ok_same existing attempted s e) k,
    )

write_lem :
    {A : Type 0} (id : Identity) (rec : ResourceRecord) (a : A) (s : Memory)
    → (store_record id rec >> pure a) s ≡ (ok a, record s { items = insert id rec s.items })
unfolding store_record ◌>>=◌
write_lem id rec a s = refl

pub write_ok :
    {A : Type 0} (id : Identity) (rec : ResourceRecord) (a d : A) (s t : Memory)
    → (store_record id rec >> pure a) s ≡ (ok d, t)
    → (d ≡ a) × (t ≡ record s { items = insert id rec s.items })
unfolding store_record ◌>>=◌
write_ok id rec a d s t h = (cc, sym (ap (λ (x : Result Error _ × Memory). x.1) h))

-- An apply that is there.
pub record HasApply (id : Identity) (s : Memory) (rec : ResourceRecord) (spec : ApplySpec)
    : Type 0 where
  pub typed : id.type ≡ type_apply
  pub at : lookup id s.items ≡ some rec
  pub specified : rec.apply ≡ some spec

module _ {J : Type 0} (p : Platform J) where
  -- what a successful update of a spec found and left
  pub record Respecified (id : Identity) (spec : ApplySpec) (owner : Text) (version : ℕ)
      (s t : Memory) (d : ApplyDesire) : Type 0 where
    pub rec : ResourceRecord
    pub old : ApplySpec
    pub found : HasApply id s rec old
    pub valid : validate_spec p spec ≡ ok tt
    pub version_eq : rec.version ≡ version
    pub owner_eq : rec.owner ≡ owner
    pub left : t ≡ record s { items = insert id (respecified p rec old spec) s.items }
    pub returned : d ≡ project_apply_desire (respecified p rec old spec)

  pub update_apply_desire_spec_ok :
      (id : Identity) (spec : ApplySpec) (owner : Text) (version : ℕ) (s t : Memory)
      (d : ApplyDesire)
      → update_apply_desire_spec p id spec owner version s ≡ (ok d, t)
      → Respecified id spec owner version s t d
  unfolding update_apply_desire_spec
  update_apply_desire_spec_ok id spec owner version s t d h =
      let (_, typed, h₁) = bind_ok_same _ _ s refl h in
      let (_, valid, h₂) = bind_ok_same _ _ s refl h₁ in
      let (a, found, h₃) = bind_ok_same (find_apply id) _ s (find_apply-keeps id s) h₂ in
      let (_, version_eq, h₄) = bind_ok_same _ _ s refl h₃ in
      let (owned, h₅) = owner_ok a.0.owner owner _ s h₄ in
      let (returned, left) = write_ok id _ _ d s t h₅ in
      let at = find_apply_ok id s a.0 a.1 found in
      record {
        rec = a.0;
        old = a.1;
        found = record {
          typed = (text_eq_iff id.type type_apply).0 (guard_ok _ _ typed);
          at = at.0;
          specified = at.1;
        };
        valid = valid;
        version_eq = (eqb_iff a.0.version version).0 (guard_ok _ _ version_eq);
        owner_eq = owned;
        left = left;
        returned = returned;
      }

-- what a successful update of an apply's status found and left
pub record Restatused (id : Identity) (status : Status) (version : ℕ) (s t : Memory)
    (d : ApplyDesire) : Type 0 where
  pub rec : ResourceRecord
  pub old : ApplySpec
  pub found : HasApply id s rec old
  pub version_eq : rec.version ≡ version
  pub left : t ≡ record s { items = insert id (with_status rec status) s.items }
  pub returned : d ≡ project_apply_desire (with_status rec status)

pub update_apply_desire_status_ok :
    (id : Identity) (status : Status) (version : ℕ) (s t : Memory) (d : ApplyDesire)
    → update_apply_desire_status id status version s ≡ (ok d, t)
    → Restatused id status version s t d
unfolding update_apply_desire_status
update_apply_desire_status_ok id status version s t d h =
    let (_, typed, h₁) = bind_ok_same _ _ s refl h in
    let (a, found, h₂) = bind_ok_same (find_apply id) _ s (find_apply-keeps id s) h₁ in
    let (_, version_eq, h₃) = bind_ok_same _ _ s refl h₂ in
    let (returned, left) = write_ok id _ _ d s t h₃ in
    let at = find_apply_ok id s a.0 a.1 found in
    record {
      rec = a.0;
      old = a.1;
      found = record {
        typed = (text_eq_iff id.type type_apply).0 (guard_ok _ _ typed);
        at = at.0;
        specified = at.1;
      };
      version_eq = (eqb_iff a.0.version version).0 (guard_ok _ _ version_eq);
      left = left;
      returned = returned;
    }

module _ {id : Identity} {s : Memory} {rec : ResourceRecord} {spec : ApplySpec}
    (h : HasApply id s rec spec) where
  find_apply-HasApply : find_apply id s ≡ (ok (rec, spec), s)
  unfolding find_apply
  find_apply-HasApply = ground (arith, h.at, h.specified)

  typed_guard :
      {A : Type 0} (f : Unit {0} → Op A)
      → (lift (guard (id.type == type_apply) not_found) >>= f) s ≡ f tt s
  typed_guard f = bind-eq _ f s s tt (rw ((text_eq_iff id.type type_apply).1 h.typed))

  pub get_apply_desire-HasApply : get_apply_desire id s ≡ (ok (project_apply_desire rec), s)
  unfolding get_apply_desire
  get_apply_desire-HasApply = typed_guard _ ∙ bind-eq (find_apply id) _ s s _ find_apply-HasApply

  pub update_apply_desire_status-stale :
      (status : Status) (version : ℕ)
      → rec.version ≢ version
      → update_apply_desire_status id status version s ≡ (err version_conflict, s)
  unfolding update_apply_desire_status
  update_apply_desire_status-stale status version n =
      typed_guard _
      ∙ bind-eq (find_apply id) _ s s _ find_apply-HasApply
      ∙ bind-err _ _ s s version_conflict (stale_guard rec.version version s n)

  pub update_apply_desire_spec-stale :
      {J : Type 0} (p : Platform J) (new : ApplySpec) (owner : Text) (version : ℕ)
      → validate_spec p new ≡ ok tt
      → rec.version ≢ version
      → update_apply_desire_spec p id new owner version s ≡ (err version_conflict, s)
  unfolding update_apply_desire_spec
  update_apply_desire_spec-stale p new owner version valid n =
      typed_guard _
      ∙ bind-eq _ _ s s tt (ap (λ r. (r, s)) valid)
      ∙ bind-eq (find_apply id) _ s s _ find_apply-HasApply
      ∙ bind-err _ _ s s version_conflict (stale_guard rec.version version s n)

  pub delete_apply_desire-stale :
      (owner : Text) (version : ℕ)
      → rec.version ≢ version
      → delete_apply_desire id owner version s ≡ (err version_conflict, s)
  unfolding delete_apply_desire
  delete_apply_desire-stale owner version n =
      typed_guard _
      ∙ bind-eq (find_apply id) _ s s _ find_apply-HasApply
      ∙ bind-err _ _ s s version_conflict (stale_guard rec.version version s n)

  version_guard :
      {A : Type 0} (version : ℕ) (f : Unit {0} → Op A)
      → rec.version ≡ version
      → (lift (guard (eqb rec.version version) version_conflict) >>= f) s ≡ f tt s
  version_guard version f e = bind-eq _ f s s tt (rw ((eqb_iff rec.version version).1 e))

  pub update_apply_desire_status-fresh :
      (status : Status) (version : ℕ)
      → rec.version ≡ version
      → update_apply_desire_status id status version s ≡ (
        ok (project_apply_desire (with_status rec status)),
        record s { items = insert id (with_status rec status) s.items },
      )
  unfolding update_apply_desire_status
  update_apply_desire_status-fresh status version e =
      typed_guard _
      ∙ bind-eq (find_apply id) _ s s _ find_apply-HasApply
      ∙ version_guard version _ e
      ∙ write_lem id _ _ s

  pub update_apply_desire_spec-fresh :
      {J : Type 0} (p : Platform J) (new : ApplySpec) (owner : Text) (version : ℕ)
      → validate_spec p new ≡ ok tt
      → rec.version ≡ version
      → rec.owner ≡ owner
      → update_apply_desire_spec p id new owner version s ≡ (
        ok (project_apply_desire (respecified p rec spec new)),
        record s { items = insert id (respecified p rec spec new) s.items },
      )
  unfolding update_apply_desire_spec
  update_apply_desire_spec-fresh p new owner version valid e o =
      typed_guard _
      ∙ bind-eq _ _ s s tt (ap (λ r. (r, s)) valid)
      ∙ bind-eq (find_apply id) _ s s _ find_apply-HasApply
      ∙ version_guard version _ e
      ∙ bind-eq (check_owner_in rec.owner owner) _ s s tt (check_owner_in-same rec.owner owner s o)
      ∙ write_lem id _ _ s

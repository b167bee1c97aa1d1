-- ===== src/Memory/Writes.antt =====
-- Compare-and-swap on an ApplyDesire in the in-memory store: what a successful write leaves, and that
-- a second write with the version that it used up is refused.
use hyperfleet_applier.Base.{
  ap₂, some, subst, ℕ, ◌≡◌, ◌≢◌, refl, sym, ◌∙◌, ap, if◌then◌else◌, arith,
}
use hyperfleet_applier.Base.Text.{Text}
use hyperfleet_applier.Base.Dict.{lookup, lookup-insert_self}
use hyperfleet_applier.Base.Result.{Result, ok, err}
use hyperfleet_applier.Desire.Types.{Identity, identity_Eq, Status, ApplySpec, ApplyDesire}
use hyperfleet_applier.Desire.Platform.{Platform}
use hyperfleet_applier.Desire.Contract.{spec_equal}
use hyperfleet_applier.Desire.Validate.{Error, version_conflict, validate_spec}
use hyperfleet_applier.Memory.Record.{ResourceRecord, Memory, increment, project_apply_desire}
use hyperfleet_applier.Memory.Apply.{
  get_apply_desire, update_apply_desire_spec, update_apply_desire_status, delete_apply_desire,
  respecified, with_status,
}
use hyperfleet_applier.Memory.Access.{
  HasApply, Respecified, Restatused, update_apply_desire_spec_ok, update_apply_desire_status_ok,
  get_apply_desire-HasApply, update_apply_desire_status-stale, update_apply_desire_spec-stale,
  delete_apply_desire-stale,
}

increment-ne : (n : ℕ) → increment n ≢ n
increment-ne n h = omega arith

-- the desire that a record of an apply projects to
pub project_lem :
    (rec : ResourceRecord) (spec : ApplySpec)
    → rec.apply ≡ some spec
    → project_apply_desire rec ≡ record {
      identity = rec.identity;
      owner = rec.owner;
      origin_id = rec.origin_id;
      spec = spec;
      status = rec.status;
      generation = rec.generation;
      version = rec.version;
    }
unfolding project_apply_desire
project_lem rec spec h = ground (arith, h)

get_same :
    {id : Identity} {s : Memory} {rec : ResourceRecord} {spec : ApplySpec} {d : ApplyDesire}
    → HasApply id s rec spec
    → get_apply_desire id s ≡ (ok d, s)
    → d ≡ project_apply_desire rec
get_same h g =
    cc (ap (λ (x : Result Error ApplyDesire × Memory). x.0) (sym g ∙ get_apply_desire-HasApply h))

module _ {J : Type 0} (p : Platform J) (id : Identity) (spec : ApplySpec) (owner : Text)
    (version : ℕ) (s t : Memory) (d : ApplyDesire) where
  abbrev new_rec : Respecified p id spec owner version s t d → ResourceRecord
  new_rec r = respecified p r.rec r.old spec

  Respecified-HasApply :
      (r : Respecified p id spec owner version s t d) → HasApply id t (new_rec r) spec
  unfolding respecified
  Respecified-HasApply r = record {
    typed = r.found.typed;
    at =
        subst (λ (u : Memory). lookup id u.items ≡ some (new_rec r)) (sym r.left)
          (lookup-insert_self id (new_rec r) s.items);
    specified = refl;
  }

  Respecified-version :
      (r : Respecified p id spec owner version s t d) → (new_rec r).version ≢ version
  unfolding respecified
  Respecified-version r e = increment-ne r.rec.version (e ∙ sym r.version_eq)

  -- A successful update of a spec, seen against the desire that a read returned just before it. The
  -- next read returns the result of the update, which has the new spec, the old status, owner and
  -- origin, the version incremented as an int64, and the generation too unless the JSON value is the same.
  pub update_spec_lem :
      (before : ApplyDesire)
      → get_apply_desire id s ≡ (ok before, s)
      → update_apply_desire_spec p id spec owner version s ≡ (ok d, t)
      → (get_apply_desire id t ≡ (ok d, t))
        × (before.version ≡ version)
        × (before.owner ≡ owner)
        × (d ≡ record before {
          spec = spec;
          generation =
              if spec_equal p before.spec spec
              then before.generation
              else increment before.generation;
          version = increment version;
        })
  unfolding respecified
  update_spec_lem before got h =
      let r = update_apply_desire_spec_ok p id spec owner version s t d h in
      let was = get_same r.found got ∙ project_lem r.rec r.old r.found.specified in
      let now = r.returned ∙ project_lem (new_rec r) spec refl in
      let vers = ap (λ (x : ApplyDesire). x.version) was ∙ r.version_eq in
      (
        get_apply_desire-HasApply (Respecified-HasApply r) ∙ ap (λ x. (ok x, t)) (sym r.returned),
        vers,
        ap (λ (x : ApplyDesire). x.owner) was ∙ r.owner_eq,
        now
            ∙ ap₂
                (λ (b : ApplyDesire) (n : ℕ). record b {
                  spec = spec;
                  generation =
                      if spec_equal p b.spec spec then b.generation else increment b.generation;
                  version = increment n;
                })
                (sym was) r.version_eq,
      )

  -- After a successful update of a spec, no write that carries the version which it was given can
  -- succeed: a status update, a valid spec update and a delete are all version conflicts.
  pub update_spec-stale :
      update_apply_desire_spec p id spec owner version s ≡ (ok d, t)
      → (status : Status) (again : ApplySpec) (other : Text) → validate_spec p again ≡ ok tt
      → (update_apply_desire_status id status version t ≡ (err version_conflict, t))
        × (update_apply_desire_spec p id again other version t ≡ (err version_conflict, t))
        × (delete_apply_desire id other version t ≡ (err version_conflict, t))
  update_spec-stale h status again other valid =
      let r = update_apply_desire_spec_ok p id spec owner version s t d h in
      let a = Respecified-HasApply r in
      let n = Respecified-version r in
      (
        update_apply_desire_status-stale a status version n,
        update_apply_desire_spec-stale a p again other version valid n,
        delete_apply_desire-stale a other version n,
      )

module _ (id : Identity) (status : Status) (version : ℕ) (s t : Memory) (d : ApplyDesire) where
  Restatused-HasApply :
      (r : Restatused id status version s t d) → HasApply id t (with_status r.rec status) r.old
  unfolding with_status
  Restatused-HasApply r = record {
    typed = r.found.typed;
    at =
        subst (λ (u : Memory). lookup id u.items ≡ some (with_status r.rec status)) (sym r.left)
          (lookup-insert_self id (with_status r.rec status) s.items);
    specified = r.found.specified;
  }

  -- A successful update of the status, seen against the desire that a read returned just before it.
  -- The next read returns the result, which differs in the status and in the incremented version alone:
  -- spec, owner and generation are untouched. A second status update that carries the old version is
  -- then a version conflict.
  pub update_status_lem :
      (before : ApplyDesire)
      → get_apply_desire id s ≡ (ok before, s)
      → update_apply_desire_status id status version s ≡ (ok d, t)
      → (get_apply_desire id t ≡ (ok d, t))
        × (before.version ≡ version)
        × (d ≡ record before { status = status; version = increment version })
        × ((again : Status)
            → update_apply_desire_status id again version t ≡ (err version_conflict, t))
  unfolding with_status
  update_status_lem before got h =
      let r = update_apply_desire_status_ok id status version s t d h in
      let a = Restatused-HasApply r in
      let was = get_same r.found got ∙ project_lem r.rec r.old r.found.specified in
      let now = r.returned ∙ project_lem (with_status r.rec status) r.old r.found.specified in
      (
        get_apply_desire-HasApply a ∙ ap (λ x. (ok x, t)) (sym r.returned),
        ap (λ (x : ApplyDesire). x.version) was ∙ r.version_eq,
        now
            ∙ ap₂ (λ (b : ApplyDesire) (n : ℕ). record b { status = status; version = increment n })
                (sym was) r.version_eq,
        λ again.
            update_apply_desire_status-stale a again version
              (λ e. increment-ne r.rec.version (e ∙ sym r.version_eq)),
      )

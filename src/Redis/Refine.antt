-- ===== src/Redis/Refine.antt =====
-- The Redis store refines the in-memory store: a successful update of an ApplyDesire is, at one moment,
-- the update that the in-memory store makes.
use hyperfleet_applier.Redis.Cas.{fail, Stop, cas_noop, cas_mutate}
use hyperfleet_applier.Desire.Validate.{Error}
use hyperfleet_applier.Base.{
  true, false, Bool, ℕ, ◌≡◌, ◌≢◌, refl, sym, ◌∙◌, ap, subst, Option, none, some, eqb_iff, arith,
}
use hyperfleet_applier.Base.Text.{Text}
use hyperfleet_applier.Base.Dict.{lookup, insert}
use hyperfleet_applier.Base.Result.{◌>>◌, ok_eq, Result, ok, err, guard, bind_ok, bind_never}
use hyperfleet_applier.Desire.Types.{
  type_apply, Identity, identity_Eq, Status, ApplySpec, ApplyDesire,
}
use hyperfleet_applier.Memory.Record.{
  empty_apply_desire, ResourceRecord, Memory, Items, project_apply_desire,
}
use hyperfleet_applier.Memory.Apply
use hyperfleet_applier.Memory.Apply.{with_status, respecified}
use hyperfleet_applier.Memory.Access.{update_apply_desire_status-fresh}
use hyperfleet_applier.Redis.Client.{Client, Codec}
use hyperfleet_applier.Redis.Key.{redis_key}
use hyperfleet_applier.Redis.Injective.{IsPathEscape}
use hyperfleet_applier.Redis.Apply.{
  project_result, require_apply, restatus_apply, update_apply_desire_status,
}
use hyperfleet_applier.Redis.Mutate.{IsCodec, Shows, Swapped, cas_mutate_ok}

pub require_apply_ok :
    (was : Option ResourceRecord) (rec : ResourceRecord) (spec : ApplySpec)
    → require_apply was ≡ ok (rec, spec)
    → (was ≡ some rec) × (rec.apply ≡ some spec)
unfolding require_apply
require_apply_ok was rec spec h = ground arith

pub require_apply-ne : (was : Option ResourceRecord) → require_apply was ≢ err cas_noop
unfolding require_apply
require_apply-ne was h = ground arith

guard_then-ne :
    (b : Bool) (e : Error) (rec : ResourceRecord)
    → ◌≡◌ {A = Result Stop ResourceRecord} (guard b (fail e) >> ok rec) (err cas_noop)
    → ⊥
guard_then-ne true e rec h = cc
guard_then-ne false e rec h = cc

guard_then_ok :
    (b : Bool) (e : Error) (rec new : ResourceRecord)
    → ◌≡◌ {A = Result Stop ResourceRecord} (guard b (fail e) >> ok rec) (ok new)
    → (b ≡ true) × (rec ≡ new)
guard_then_ok true e rec new h = (refl, ok_eq h)
guard_then_ok false e rec new h = cc

restatus_apply-ne :
    (status : Status) (version : ℕ) (was : Option ResourceRecord)
    → restatus_apply status version was ≢ err cas_noop
unfolding restatus_apply
restatus_apply-ne status version was =
    bind_never (require_apply was) _ cas_noop (require_apply-ne was) λ a h. guard_then-ne _ _ _ h

restatus_apply_ok :
    (status : Status) (version : ℕ) (was : Option ResourceRecord) (new : ResourceRecord)
    → restatus_apply status version was ≡ ok new
    → (rec : ResourceRecord) × (spec : ApplySpec) × (was ≡ some rec)
      × (rec.apply ≡ some spec)
      × (rec.version ≡ version)
      × (new ≡ with_status rec status)
unfolding restatus_apply
restatus_apply_ok status version was new h =
    let (a, q, h₁) = bind_ok (require_apply was) _ h in
    let at = require_apply_ok was a.0 a.1 q in
    let (v, e) = guard_then_ok _ _ _ _ h₁ in
    (a.0, a.1, at.0, at.1, (eqb_iff a.0.version version).0 v, sym e)

-- The closure of UpdateApplyDesireStatus and the in-memory operation change a record alike.
restatus-agrees :
    (id : Identity) (status : Status) (version : ℕ) (s : Memory) (rec : ResourceRecord)
    → id.type ≡ type_apply
    → restatus_apply status version (lookup id s.items) ≡ ok rec
    → Apply.update_apply_desire_status id status version s
      ≡ (ok (project_apply_desire rec), record s { items = insert id rec s.items })
restatus-agrees id status version s rec ty h =
    let (was, spec, at, sp, v, e) = restatus_apply_ok status version (lookup id s.items) rec h in
    subst
      (λ x.
        Apply.update_apply_desire_status id status version s
        ≡ (ok (project_apply_desire x), record s { items = insert id x s.items }))
      (sym e)
      (update_apply_desire_status-fresh (record { typed = ty; at = at; specified = sp }) status
        version v)

pub project_result_ok :
    {D R : Type 0} (project : ResourceRecord → D) (zero_desire : D)
    (x : Result Error (Option ResourceRecord) × R) (d : D) (t : R)
    → (x ≡ (ok none, t) → ⊥)
    → project_result project zero_desire x ≡ (ok d, t)
    → (rec : ResourceRecord) × (x ≡ (ok (some rec), t)) × (d ≡ project rec)
project_result_ok {D} {R} project z (err e, r) d t never h =
    cc (ap (λ (y : Result Error D × R). y.0) h)
project_result_ok {D} {R} project z (ok none, r) d t never h =
    absurd (never (ap (λ (y : Result Error D × R). (ok none, y.1)) h))
project_result_ok {D} {R} project z (ok (some rec), r) d t never h = (
  rec,
  ap (λ (y : Result Error D × R). (ok (some rec), y.1)) h,
  sym (ok_eq (ap (λ (y : Result Error D × R). y.0) h)),
)

module _ {R : Type 0} (c : Client R) (codec : Codec) (path_escape : Text → Text)
    (Plain : ResourceRecord → Type 0) (view : R → Items) where
  restatus-Plain :
      (status : Status)
      → ((rec : ResourceRecord) → Plain rec → Plain (with_status rec status))
      → ((u : R) (id : Identity) (rec : ResourceRecord) → lookup id (view u) ≡ some rec → Plain rec)
      → (id : Identity) (version : ℕ) (u : R) (rec : ResourceRecord)
      → restatus_apply status version (lookup id (view u)) ≡ ok rec
      → Plain rec
  restatus-Plain status keeps plain id version u rec h =
      let (was, spec, at, sp, v, e) = restatus_apply_ok status version (lookup id (view u)) rec h in
      subst Plain (sym e) (keeps was (plain u id was at))

  -- Redis implements the in-memory store: an update of an ApplyDesire's status that succeeds commits one
  -- transaction, and on the map of the state that the commit stepped from the in-memory operation
  -- returns the same desire and leaves the map that the keys show after the commands. It is assumed that
  -- keys are escaped reversibly, that the keys of every state show its map, and that the records in it,
  -- and these with the new status, survive the encoding.
  pub status_update_refines :
      IsPathEscape path_escape
      → IsCodec codec Plain
      → ((u : R) → Shows path_escape codec (c.get u) (view u))
      → (status : Status) → ((rec : ResourceRecord) → Plain rec → Plain (with_status rec status))
      → ((u : R) (id : Identity) (rec : ResourceRecord) → lookup id (view u) ≡ some rec → Plain rec)
      → (id : Identity) (version total : ℕ) (r t : R) (d : ApplyDesire) → id.type ≡ type_apply
      → update_apply_desire_status c codec path_escape id status version r ≡ (ok d, t)
      → (rec : ResourceRecord) × (w : Swapped c codec path_escape Plain view id
          (restatus_apply status version)
          t
          rec)
        × (Apply.update_apply_desire_status id status version
              (record { items = view w.read_at; conflict_total = total })
            ≡ (ok d, record { items = insert id rec (view w.read_at); conflict_total = total }))
  unfolding update_apply_desire_status
  status_update_refines esc cod shows status keeps plain id version total r t d ty h =
      let swapped =
        cas_mutate_ok c codec path_escape Plain view esc cod shows id
          (restatus_apply status version) (restatus_apply-ne status version)
          (restatus-Plain status keeps plain id version) r t in
      let (rec, e, q) =
        project_result_ok project_apply_desire empty_apply_desire
          (cas_mutate c codec (redis_key path_escape id) (restatus_apply status version) r) d t
          (λ n. let (x, k, _) = swapped none n in cc k) h in
      let (rec', k, w) = swapped (some rec) e in
      let same : rec' ≡ rec = cc k in
      let s : Memory = record { items = view w.read_at; conflict_total = total } in
      (
        rec',
        w,
        restatus-agrees id status version s rec' ty w.mutated
            ∙ ap (λ x. (ok x, record s { items = insert id rec' s.items }))
                (ap project_apply_desire same ∙ sym q),
      )

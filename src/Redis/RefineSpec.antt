-- ===== src/Redis/RefineSpec.antt =====
-- The spec update of the Redis store against that of the in-memory store.
use hyperfleet_applier.Base.{
  true, false, Bool, ℕ, ◌≡◌, ◌≢◌, refl, sym, ◌∙◌, ap, subst, Option, none, some, eqb, eqb_iff, ◌==◌,
}
use hyperfleet_applier.Base.Text.{Text, text_Eq, text_eq_iff}
use hyperfleet_applier.Base.Dict.{lookup, insert}
use hyperfleet_applier.Base.Result.{◌>>◌, ok_eq, Result, ok, err, guard, bind_ok, bind_never}
use hyperfleet_applier.Desire.Types.{type_apply, Identity, identity_Eq, ApplySpec, ApplyDesire}
use hyperfleet_applier.Desire.Platform.{Platform}
use hyperfleet_applier.Desire.Validate.{version_conflict, owner_conflict, Error, validate_spec}
use hyperfleet_applier.Memory.Record.{
  empty_apply_desire, ResourceRecord, Memory, Items, project_apply_desire,
}
use hyperfleet_applier.Memory.Apply
use hyperfleet_applier.Memory.Apply.{respecified}
use hyperfleet_applier.Memory.Access.{update_apply_desire_spec-fresh}
use hyperfleet_applier.Redis.Cas.{fail, Stop, cas_noop, cas_mutate}
use hyperfleet_applier.Redis.Client.{Client, Codec}
use hyperfleet_applier.Redis.Key.{redis_key}
use hyperfleet_applier.Redis.Injective.{IsPathEscape}
use hyperfleet_applier.Redis.Apply.{
  project_result, require_apply, respecify, check_owner_tx, update_apply_desire_spec,
}
use hyperfleet_applier.Redis.Mutate.{IsCodec, Shows, Swapped, cas_mutate_ok}
use hyperfleet_applier.Redis.Refine.{require_apply_ok, require_apply-ne, project_result_ok}

guards-ne :
    (b b' : Bool) (e e' : Error) (rec : ResourceRecord)
    → ◌≡◌ {A = Result Stop ResourceRecord}
        (guard b (fail e) >> (guard b' (fail e') >> ok rec))
        (err cas_noop)
    → ⊥
guards-ne true true e e' rec h = cc
guards-ne true false e e' rec h = cc
guards-ne false b' e e' rec h = cc

guards_ok :
    (b b' : Bool) (e e' : Error) (rec new : ResourceRecord)
    → ◌≡◌ {A = Result Stop ResourceRecord}
        (guard b (fail e) >> (guard b' (fail e') >> ok rec))
        (ok new)
    → (b ≡ true) × (b' ≡ true) × (rec ≡ new)
guards_ok true true e e' rec new h = (refl, refl, ok_eq h)
guards_ok true false e e' rec new h = cc
guards_ok false b' e e' rec new h = cc

module _ {J : Type 0} (p : Platform J) where
  respecify-ne :
      (spec : ApplySpec) (owner : Text) (version : ℕ) (was : Option ResourceRecord)
      → respecify p spec owner version was ≢ err cas_noop
  unfolding respecify check_owner_tx
  respecify-ne spec owner version was =
      bind_never (require_apply was) _ cas_noop (require_apply-ne was) λ a h.
        guards-ne (eqb a.0.version version) (a.0.owner == owner) version_conflict owner_conflict
          (respecified p a.0 a.1 spec) h

  respecify_ok :
      (spec : ApplySpec) (owner : Text) (version : ℕ) (was : Option ResourceRecord)
      (new : ResourceRecord)
      → respecify p spec owner version was ≡ ok new
      → (rec : ResourceRecord) × (old : ApplySpec) × (was ≡ some rec)
        × (rec.apply ≡ some old)
        × (rec.version ≡ version)
        × (rec.owner ≡ owner)
        × (new ≡ respecified p rec old spec)
  unfolding respecify check_owner_tx
  respecify_ok spec owner version was new h =
      let (a, q, h₁) = bind_ok (require_apply was) _ h in
      let at = require_apply_ok was a.0 a.1 q in
      let (v, o, e) = guards_ok _ _ _ _ _ _ h₁ in
      (
        a.0,
        a.1,
        at.0,
        at.1,
        (eqb_iff a.0.version version).0 v,
        (text_eq_iff a.0.owner owner).0 o,
        sym e,
      )

  -- The closure of UpdateApplyDesireSpec and the in-memory operation change a record alike.
  respecify-agrees :
      (id : Identity) (spec : ApplySpec) (owner : Text) (version : ℕ) (s : Memory)
      (rec : ResourceRecord)
      → id.type ≡ type_apply
      → validate_spec p spec ≡ ok tt
      → respecify p spec owner version (lookup id s.items) ≡ ok rec
      → Apply.update_apply_desire_spec p id spec owner version s
        ≡ (ok (project_apply_desire rec), record s { items = insert id rec s.items })
  respecify-agrees id spec owner version s rec ty valid h =
      let (was, old, at, sp, v, o, e) = respecify_ok spec owner version (lookup id s.items) rec h in
      subst
        (λ x.
          Apply.update_apply_desire_spec p id spec owner version s
          ≡ (ok (project_apply_desire x), record s { items = insert id x s.items }))
        (sym e)
        (update_apply_desire_spec-fresh (record { typed = ty; at = at; specified = sp }) p spec
          owner version valid v o)

  module _ {R : Type 0} (c : Client R) (codec : Codec) (path_escape : Text → Text)
      (Plain : ResourceRecord → Type 0) (view : R → Items) where
    validated :
        (x : Result Error (Unit {0})) (k : Result Error ApplyDesire × R) (r t : R) (d : ApplyDesire)
        → (elim x [ err e ↦ (err e, r) | ok _ ↦ k ]) ≡ (ok d, t)
        → (x ≡ ok tt) × (k ≡ (ok d, t))
    validated (ok _) k r t d h = (refl, h)
    validated (err e) k r t d h = cc (ap (λ (y : Result Error ApplyDesire × R). y.0) h)

    respecify-Plain :
        (spec : ApplySpec)
        → ((rec : ResourceRecord) (old : ApplySpec)
            → rec.apply ≡ some old
            → Plain rec
            → Plain (respecified p rec old spec))
        → ((u : R) (id : Identity) (rec : ResourceRecord)
            → lookup id (view u) ≡ some rec
            → Plain rec)
        → (id : Identity) (owner : Text) (version : ℕ) (u : R) (rec : ResourceRecord)
        → respecify p spec owner version (lookup id (view u)) ≡ ok rec
        → Plain rec
    respecify-Plain spec keeps plain id owner version u rec h =
        let (was, old, at, sp, v, o, e) =
          respecify_ok spec owner version (lookup id (view u)) rec h in
        subst Plain (sym e) (keeps was old sp (plain u id was at))

    -- An update of an ApplyDesire's spec in Redis that succeeds commits one transaction, and on the map
    -- of the state that the commit stepped from the in-memory operation returns the same desire and
    -- leaves the map that the keys show after the commands. It is assumed that keys are escaped
    -- reversibly, that the keys of every state show its map, and that the records in it, and these with
    -- the new spec, survive the encoding.
    pub spec_update_refines :
        IsPathEscape path_escape
        → IsCodec codec Plain
        → ((u : R) → Shows path_escape codec (c.get u) (view u))
        → (spec : ApplySpec)
        → ((rec : ResourceRecord) (old : ApplySpec)
            → rec.apply ≡ some old
            → Plain rec
            → Plain (respecified p rec old spec))
        → ((u : R) (id : Identity) (rec : ResourceRecord)
            → lookup id (view u) ≡ some rec
            → Plain rec)
        → (id : Identity) (owner : Text) (version total : ℕ) (r t : R) (d : ApplyDesire)
        → id.type ≡ type_apply
        → update_apply_desire_spec c codec path_escape p id spec owner version r ≡ (ok d, t)
        → (rec : ResourceRecord) × (w : Swapped c codec path_escape Plain view id
            (respecify p spec owner version)
            t
            rec)
          × (Apply.update_apply_desire_spec p id spec owner version
                (record { items = view w.read_at; conflict_total = total })
              ≡ (ok d, record { items = insert id rec (view w.read_at); conflict_total = total }))
    unfolding update_apply_desire_spec
    spec_update_refines esc cod shows spec keeps plain id owner version total r t d ty h =
        let run =
          cas_mutate c codec (redis_key path_escape id) (respecify p spec owner version) r in
        let (valid, h₁) =
          validated (validate_spec p spec)
            (project_result project_apply_desire empty_apply_desire run) r t d h in
        let swapped =
          cas_mutate_ok c codec path_escape Plain view esc cod shows id
            (respecify p spec owner version) (respecify-ne spec owner version)
            (respecify-Plain spec keeps plain id owner version) r t in
        let (rec, e, q) =
          project_result_ok project_apply_desire empty_apply_desire run d t
            (λ n. let (x, k, _) = swapped none n in cc k) h₁ in
        let (rec', k, w) = swapped (some rec) e in
        let same : rec' ≡ rec = cc k in
        let s : Memory = record { items = view w.read_at; conflict_total = total } in
        (
          rec',
          w,
          respecify-agrees id spec owner version s rec' ty valid w.mutated
              ∙ ap (λ x. (ok x, record s { items = insert id rec' s.items }))
                  (ap project_apply_desire same ∙ sym q),
        )

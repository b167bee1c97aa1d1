-- ===== src/Tests/RedisStore.antt =====
-- Runs of the Redis store. The server holds one record, as its version, or the store is a map of keys
-- with a number of conflicts ahead.
use hyperfleet_applier.Base.{
  ap₂, subst, ℕ, zero, suc, ◌≡◌, ◌+◌, ◌<◌, refl, sym, ◌∙◌, ap, false, Bool-cases, inl, inr, Option,
  some, none, [], ◌∷◌, if◌then◌else◌, ◌==◌, arith,
}
use hyperfleet_applier.Desire.Types.{ApplySpec, identity_eq_iff, identity_eq, Identity, identity_Eq}
use hyperfleet_applier.Desire.Validate.{validate_spec, aborted}
use hyperfleet_applier.Desire.Contract.{spec_equal}
use hyperfleet_applier.Redis.RefineSpec.{spec_update_refines}
use hyperfleet_applier.Tests.Data.{spec_1, platform, apply_id, record_1, desire_1}
use hyperfleet_applier.Redis.Apply.{
  check_owner_tx, respecify, update_apply_desire_spec, require_apply, update_apply_desire_status,
  restatus_apply,
}
use hyperfleet_applier.Memory.Apply.{respecified, with_status}
use hyperfleet_applier.Base.Text.{text_eq, Text, codes, text_eq_iff, text_Eq}
use hyperfleet_applier.Redis.Cas.{
  mutate_body, or_fail, cas_mutate, decode_reply, Body, watch, watch_retry, get_record_tx,
}
use hyperfleet_applier.Base.Dict.{insert, lookup}
use hyperfleet_applier.Memory.Record.{
  increment, ResourceRecord, Items, empty_status, project_apply_desire,
}
use hyperfleet_applier.Base.Result.{ok, err}
use hyperfleet_applier.Memory.Apply
use hyperfleet_applier.Redis.Client.{
  Client, Codec, Reply, found, nil, failed, set, committed, tx_failed, after,
}
use hyperfleet_applier.Redis.Key.{redis_key}
use hyperfleet_applier.Redis.Injective.{IsPathEscape, Free, redis_key_injective}
use hyperfleet_applier.Redis.Retry.{Conflicts, here, lost, watch_retry-commits, watch_retry-aborts}
use hyperfleet_applier.Redis.Mutate.{IsCodec, Shows, Swapped}
use hyperfleet_applier.Redis.Refine.{status_update_refines}

-- an escaping that uses no byte below 126
unfoldable shift : Text → Text
shift [] = []
shift (c ∷ s) = (c + 126) ∷ shift s

shift_injective : (s t : Text) → shift s ≡ shift t → s ≡ t
unfolding shift
shift_injective [] [] h = refl
shift_injective [] (b ∷ t) h = cc
shift_injective (a ∷ s) [] h = cc
shift_injective (a ∷ s) (b ∷ t) h =
    let parts : (a + 126 ≡ b + 126) × (shift s ≡ shift t) = (cc, cc) in
    let e : a ≡ b = omega (arith, parts.0) in let k = shift_injective s t parts.1 in cc

shift-Free : (c : ℕ) (s : Text) → c < 126 → Free c (shift s)
unfolding shift
shift-Free c [] h = tt
shift-Free c (a ∷ s) h = (λ e. omega arith, shift-Free c s h)

shift-IsPathEscape : IsPathEscape shift
shift-IsPathEscape = record {
  injective = shift_injective;
  no_slash = λ s. shift-Free b'/' s (omega arith);
  no_brace = λ s. shift-Free b'}' s (omega arith);
}

redis_key_injective_example : apply_id ≡ apply_id
redis_key_injective_example = redis_key_injective shift shift-IsPathEscape apply_id apply_id refl

-- a server that refuses as many transactions as are still ahead
abbrev contended : Client ℕ
contended = record {
  get = λ _ _. nil;
  exec = λ keys cs n. elim n [ zero ↦ (committed, zero) | suc m ↦ (tx_failed, m) ];
  wait = λ _ n. (none, n);
}

abbrev body : Body ℕ
body get = ok (set (codes "k") (codes "v") ∷ [], 7)

one_conflict : Conflicts contended body (codes "k" ∷ []) 1 1 1 0
unfolding watch
one_conflict = lost refl refl here

watch_retry-commits_example : watch_retry contended body (codes "k" ∷ []) 1 ≡ (ok (some 7), 0)
unfolding watch
watch_retry-commits_example =
    watch_retry-commits contended body (codes "k" ∷ []) 1 1 0 0 7 one_conflict (omega arith) refl

conflicts : (n k : ℕ) → Conflicts contended body (codes "k" ∷ []) n k n 0
unfolding watch
conflicts zero k = here
conflicts (suc n) k = lost refl refl (conflicts n (k + 1))

watch_retry-aborts_example : watch_retry contended body (codes "k" ∷ []) 16 ≡ (err aborted, 0)
watch_retry-aborts_example =
    watch_retry-aborts contended body (codes "k" ∷ []) 16 0 (conflicts 16 1)

abbrev at_version : ℕ → ResourceRecord
at_version n = record record_1 { version = n }

abbrev Plain : ResourceRecord → Type 0
Plain rec = rec ≡ at_version rec.version

abbrev codec : Codec
codec = record {
  marshal = λ rec. some (rec.version ∷ []);
  unmarshal = λ bytes. elim bytes [ [] ↦ none | v ∷ _ ↦ some (at_version v) ];
}

codec-IsCodec : IsCodec codec Plain
codec-IsCodec = record {
  round_trip = λ rec bytes plain h.
      sym (ap (λ (o : Option Text). elim o [ none ↦ none | some b ↦ codec.unmarshal b ]) h)
      ∙ ap some (sym plain);
}

abbrev stored : Reply → ℕ → ℕ
stored (found (v ∷ _)) n = v
stored (found []) n = n
stored nil n = n
stored (failed _) n = n

abbrev server : Client ℕ
server = record {
  get = λ n key. if redis_key shift apply_id == key then found (n ∷ []) else nil;
  exec = λ keys cs n. (committed, stored (after cs (redis_key shift apply_id) (found (n ∷ []))) n);
  wait = λ _ n. (none, n);
}

abbrev view : ℕ → Items
view n = (apply_id, at_version n) ∷ []

shows : (n : ℕ) → Shows shift codec (server.get n) (view n)
unfolding get_record_tx decode_reply lookup or_fail
shows n id = elim (Bool-cases (redis_key shift apply_id == redis_key shift id)) [
  | inl y ↦
      let e = redis_key_injective shift shift-IsPathEscape apply_id id ((text_eq_iff _ _).0 y) in
      rw (y, (identity_eq_iff apply_id id).1 e) refl
  | inr o ↦ rw (o, other_id id o) refl
]
  where
    other_id :
        (j : Identity)
        → (redis_key shift apply_id == redis_key shift j) ≡ false
        → identity_eq apply_id j ≡ false
    other_id j o = ground (
      arith,
      o,
      text_eq_iff (redis_key shift apply_id) (redis_key shift j),
      identity_eq_iff apply_id j,
      λ (h : apply_id ≡ j). ap (redis_key shift) h,
    )

updated :
    update_apply_desire_status server codec shift apply_id empty_status 1 1
    ≡ (ok (record desire_1 { version = 2 }), 2)
unfolding update_apply_desire_status cas_mutate watch_retry watch mutate_body get_record_tx
    decode_reply text_eq redis_key shift restatus_apply require_apply project_apply_desire after
    with_status
updated = refl

keeps : (rec : ResourceRecord) → Plain rec → Plain (with_status rec empty_status)
unfolding with_status
keeps rec plain =
    ap (λ (r : ResourceRecord). record r { status = empty_status; version = increment rec.version })
      plain

Plain-view :
    (u : ℕ) (id : Identity) (rec : ResourceRecord) → lookup id (view u) ≡ some rec → Plain rec
unfolding lookup
Plain-view u id rec h = elim (Bool-cases (identity_eq apply_id id)) [
  | inl y ↦ let e : at_version u ≡ rec = cc (rw y at h) in subst Plain e refl
  | inr n ↦ cc (rw n at h)
]

status_update_refines_example :
    (rec : ResourceRecord) × (w : Swapped server codec shift Plain view apply_id
      (restatus_apply empty_status 1)
      2
      rec)
    × (Apply.update_apply_desire_status apply_id empty_status 1
          (record { items = view w.read_at; conflict_total = 0 })
        ≡ (
          ok (record desire_1 { version = 2 }),
          record { items = insert apply_id rec (view w.read_at); conflict_total = 0 },
        ))
status_update_refines_example =
    status_update_refines server codec shift Plain view shift-IsPathEscape codec-IsCodec shows
      empty_status keeps Plain-view apply_id 1 0 1 2 (record desire_1 { version = 2 }) refl updated

spec_keeps :
    (rec : ResourceRecord) (old : ApplySpec)
    → rec.apply ≡ some old
    → Plain rec
    → Plain (respecified platform rec old spec_1)
unfolding respecified spec_equal text_eq
spec_keeps rec old h plain =
    let e : old ≡ spec_1 = cc (sym h ∙ ap (λ (r : ResourceRecord). r.apply) plain) in
    ap₂ (λ r o. respecified platform r o spec_1) plain e

spec_updated :
    update_apply_desire_spec server codec shift platform apply_id spec_1 (codes "me") 1 1
    ≡ (ok (record desire_1 { version = 2 }), 2)
unfolding update_apply_desire_spec cas_mutate watch_retry watch mutate_body get_record_tx
    decode_reply text_eq redis_key shift respecify check_owner_tx require_apply project_apply_desire
    after respecified spec_equal validate_spec
spec_updated = refl

spec_update_refines_example :
    (rec : ResourceRecord) × (w : Swapped server codec shift Plain view apply_id
      (respecify platform spec_1 (codes "me") 1)
      2
      rec)
    × (Apply.update_apply_desire_spec platform apply_id spec_1
          (codes "me")
          1
          (record { items = view w.read_at; conflict_total = 0 })
        ≡ (
          ok (record desire_1 { version = 2 }),
          record { items = insert apply_id rec (view w.read_at); conflict_total = 0 },
        ))
spec_update_refines_example =
    spec_update_refines platform server codec shift Plain view shift-IsPathEscape codec-IsCodec
      shows spec_1 spec_keeps Plain-view apply_id (codes "me") 1 0 1 2
      (record desire_1 { version = 2 }) refl spec_updated

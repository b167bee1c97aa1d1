-- ===== src/Redis/Cas.antt =====
-- Compare-and-swap over WATCH/MULTI/EXEC: getRecordTx, loadRecord, watchRetry, casMutate, casDelete and
-- casCreate. A transaction body reads through `tx.Get` and then stops with an error or queues commands.
use hyperfleet_applier.Base.{ℕ, zero, suc, ◌+◌, ◌*◌, Option, none, some, List, [], ◌∷◌, map}
use hyperfleet_applier.Base.Text.{Text, codes}
use hyperfleet_applier.Base.Result.{Result, ok, err, ◌>>=◌}
use hyperfleet_applier.Desire.Types.{type_apply, type_delete, type_read, all_types, Identity}
use hyperfleet_applier.Desire.Validate.{Error, not_found, aborted, client}
use hyperfleet_applier.Memory.Record.{ResourceRecord, with_type}
use hyperfleet_applier.Redis.Client.{
  Reply, found, nil, failed, Command, set, del, Outcome, committed, tx_failed, exec_error, Client,
  Codec,
}
use hyperfleet_applier.Redis.Key.{redis_key}

abbrev pub max_cas_retries : ℕ
max_cas_retries = 16

-- 5 ms in nanoseconds
abbrev pub cas_base_delay : ℕ
cas_base_delay = 5000000

-- How a body stops: errCASNoop, or an error.
pub data Stop : Type 0 where
  cas_noop : Stop
  fail : Error → Stop

-- From what each GET of the attempt answers, which need not be of one moment, to the queued commands and
-- the value assigned to `out`.
abbrev pub Body : Type 0 → Type 0
Body A = (Text → Reply) → Result Stop (List Command × A)

unfoldable pub or_fail {ℓ} : {A : Type ℓ} → Text → Option A → Result Stop A
or_fail what none = err (fail (client what))
or_fail what (some a) = ok a

module _ (codec : Codec) where
  unfoldable pub decode_reply : Reply → Result Stop (Option ResourceRecord)
  unfolding or_fail
  decode_reply nil = ok none
  decode_reply (failed e) = err (fail (client e))
  decode_reply (found bytes) = do
    rec ← or_fail (codes "unmarshal") (codec.unmarshal bytes)
    ok (some rec)

  unfoldable pub get_record_tx : (Text → Reply) → Text → Result Stop (Option ResourceRecord)
  get_record_tx get key = decode_reply (get key)

  unfoldable pub load_record : (Text → Reply) → Text → Result Error ResourceRecord
  load_record get key = elim (get key) [
    | nil ↦ err not_found
    | failed e ↦ err (client e)
    | found bytes ↦ elim (codec.unmarshal bytes) [
      | none ↦ err (client (codes "unmarshal"))
      | some rec ↦ ok rec
    ]
  ]

  -- `mutate` gets the stored record, if there is one
  unfoldable pub mutate_body :
      Text → (Option ResourceRecord → Result Stop ResourceRecord) → Body ResourceRecord
  mutate_body key mutate get = do
    was ← get_record_tx get key
    rec ← mutate was
    bytes ← or_fail (codes "marshal") (codec.marshal rec)
    ok (set key bytes ∷ [], rec)

  unfoldable pub delete_body :
      Text → (Option ResourceRecord → Result Stop (Unit {0})) → Body (Unit {0})
  delete_body key precheck get = do
    was ← get_record_tx get key
    _ ← precheck was
    ok (del key ∷ [], tt)

-- sibs[t], for each type
pub record Siblings : Type 0 where
  pub apply : Option ResourceRecord
  pub delete : Option ResourceRecord
  pub read : Option ResourceRecord

module _ (path_escape : Text → Text) (codec : Codec) where
  -- Each of the three GETs has its own answer. `build` gives the new record and the keys to delete with
  -- it.
  unfoldable pub create_body :
      Identity → (Siblings → Result Stop (ResourceRecord × List Text)) → Body ResourceRecord
  create_body id build get = do
    a ← get_record_tx codec get (redis_key path_escape (with_type type_apply id))
    d ← get_record_tx codec get (redis_key path_escape (with_type type_delete id))
    r ← get_record_tx codec get (redis_key path_escape (with_type type_read id))
    (rec, doomed) ← build (record { apply = a; delete = d; read = r })
    bytes ← or_fail (codes "marshal") (codec.marshal rec)
    ok (set (redis_key path_escape rec.identity) bytes ∷ map del doomed, rec)

-- The result of one `client.Watch`.
pub data Watched (A : Type 0) : Type 0 where
  done : A → Watched A
  noop conflict : Watched A
  broken : Error → Watched A

module _ {R : Type 0} (c : Client R) where
  unfoldable pub commit : {A : Type 0} → A → Outcome → Watched A
  commit a committed = done a
  commit a tx_failed = conflict
  commit a (exec_error e) = broken (client e)

  unfoldable pub run_body :
      {A : Type 0} → List Text → Result Stop (List Command × A) → R → Watched A × R
  run_body keys (err cas_noop) r = (noop, r)
  run_body keys (err (fail e)) r = (broken e, r)
  run_body keys (ok (cs, a)) r = let (o, r') = c.exec keys cs r in (commit a o, r')

  unfoldable pub watch : {A : Type 0} → Body A → List Text → R → Watched A × R
  unfolding commit run_body
  watch body keys r = run_body keys (body (c.get r)) r

  -- the switch on the error of an attempt, and the select of the wait; `again` is the next attempt
  abbrev pub settle :
      {A : Type 0} → Watched A × R → (R → Result Error (Option A) × R) → Result Error (Option A) × R
  settle (done a, r) again = (ok (some a), r)
  settle (noop, r) again = (ok none, r)
  settle (broken e, r) again = (err e, r)
  settle (conflict, r) again = again r

  abbrev pub pause :
      {A : Type 0}
      → Option Error × R
      → (R → Result Error (Option A) × R)
      → Result Error (Option A) × R
  pause (some e, r) again = (err e, r)
  pause (none, r) again = again r

  -- The loop of watchRetry, with the attempts that are left; `ok none` is a body that did nothing.
  unfoldable pub retry_from :
      {A : Type 0} → ℕ → ℕ → Body A → List Text → R → Result Error (Option A) × R
  retry_from zero attempt body keys r = (err aborted, r)
  retry_from (suc left) attempt body keys r = settle (watch body keys r) λ r'.
      pause (c.wait (cas_base_delay * attempt) r') λ u. retry_from left (attempt + 1) body keys u

  unfoldable pub watch_retry : {A : Type 0} → Body A → List Text → R → Result Error (Option A) × R
  unfolding retry_from
  watch_retry = retry_from max_cas_retries 1

module _ {R : Type 0} (c : Client R) (codec : Codec) where
  unfoldable pub cas_mutate :
      Text
      → (Option ResourceRecord → Result Stop ResourceRecord)
      → R
      → Result Error (Option ResourceRecord) × R
  cas_mutate key mutate = watch_retry c (mutate_body codec key mutate) (key ∷ [])

  unfoldable pub cas_delete :
      Text
      → (Option ResourceRecord → Result Stop (Unit {0}))
      → R
      → Result Error (Option (Unit {0})) × R
  cas_delete key precheck = watch_retry c (delete_body codec key precheck) (key ∷ [])

  unfoldable pub cas_create :
      (Text → Text)
      → Identity
      → (Siblings → Result Stop (ResourceRecord × List Text))
      → R
      → Result Error (Option ResourceRecord) × R
  cas_create path_escape id build =
      watch_retry c (create_body path_escape codec id build)
        (map (λ t. redis_key path_escape (with_type t id)) all_types)

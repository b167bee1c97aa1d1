-- ===== src/Redis/Mutate.antt =====
-- A compare-and-swap on one key against the map of the in-memory store: what the transaction read and
-- wrote, and which map the keys then show.
use hyperfleet_applier.Base.Result.{bind_never, ok_eq, ◌>>=◌, bind_ok, Result, ok, err}
use hyperfleet_applier.Redis.Client.{
  nil, failed, Reply, found, Command, set, Client, Codec, committed, after,
}
use hyperfleet_applier.Base.Text.{codes, Text, text_Eq, text_eq_iff}
use hyperfleet_applier.Base.{
  ◌≢◌, false, ◌==◌, ◌≡◌, inl, inr, refl, sym, ◌∙◌, ap, subst, Option, none, some, List, [], ◌∷◌,
  Bool-cases, arith,
}
use hyperfleet_applier.Redis.Cas.{
  decode_reply, cas_noop, Stop, get_record_tx, mutate_body, cas_mutate, or_fail,
}
use hyperfleet_applier.Base.Dict.{lookup, insert, lookup-insert_self, lookup-insert_ne}
use hyperfleet_applier.Desire.Types.{Identity, identity_Eq}
use hyperfleet_applier.Memory.Record.{ResourceRecord, Items}
use hyperfleet_applier.Redis.Key.{redis_key}
use hyperfleet_applier.Redis.Injective.{IsPathEscape, redis_key_injective}
use hyperfleet_applier.Redis.Retry.{watch_retry_ok, watch_retry_noop}

-- json.Marshal and json.Unmarshal are inverse on the records that hold for `Plain`, such as those whose
-- raw JSON is compact: Marshal compacts it.
pub record IsCodec (codec : Codec) (Plain : ResourceRecord → Type 0) : Type 0 where
  pub round_trip :
      (rec : ResourceRecord) (bytes : Text)
      → Plain rec
      → codec.marshal rec ≡ some bytes
      → codec.unmarshal bytes ≡ some rec

or_fail_ok : (what : Text) (o : Option Text) (b : Text) → or_fail what o ≡ ok b → o ≡ some b
unfolding or_fail
or_fail_ok what none b h = cc
or_fail_ok what (some a) b h = ap some (ok_eq h)

or_fail-ne {ℓ} : {A : Type ℓ} (what : Text) (o : Option A) → or_fail what o ≢ err cas_noop
unfolding or_fail
or_fail-ne what none h = cc
or_fail-ne what (some a) h = cc

decode_reply-ne : (codec : Codec) (reply : Reply) → decode_reply codec reply ≢ err cas_noop
unfolding decode_reply
decode_reply-ne codec nil = λ h. cc
decode_reply-ne codec (failed e) = λ h. cc
decode_reply-ne codec (found bytes) =
    bind_never (or_fail _ (codec.unmarshal bytes)) _ cas_noop (or_fail-ne _ (codec.unmarshal bytes))
      λ rec h. cc

module _ (codec : Codec) where
  same_reply :
      (get get' : Text → Reply) (key : Text)
      → get key ≡ get' key
      → get_record_tx codec get key ≡ get_record_tx codec get' key
  unfolding get_record_tx
  same_reply get get' key h = ap (decode_reply codec) h

  -- what a body of casMutate did
  mutate_body_ok :
      (key : Text) (mutate : Option ResourceRecord → Result Stop ResourceRecord)
      (get : Text → Reply) (cs : List Command) (rec : ResourceRecord) (was : Option ResourceRecord)
      → get_record_tx codec get key ≡ ok was
      → mutate_body codec key mutate get ≡ ok (cs, rec)
      → (bytes : Text) × (mutate was ≡ ok rec)
        × (codec.marshal rec ≡ some bytes)
        × (cs ≡ set key bytes ∷ [])
  unfolding mutate_body or_fail
  mutate_body_ok key mutate get cs rec was g h =
      let (was', g', h₁) = bind_ok (get_record_tx codec get key) _ h in
      let (rec', m, h₂) = bind_ok (mutate was') _ h₁ in
      let (bytes, b, h₃) = bind_ok (or_fail _ (codec.marshal rec')) _ h₂ in
      let e : rec' ≡ rec = ap (λ (x : List Command × ResourceRecord). x.1) (ok_eq h₃) in
      (
        bytes,
        subst (λ w. mutate w ≡ ok rec) (ok_eq (sym g' ∙ g)) (m ∙ ap ok e),
        subst (λ x. codec.marshal x ≡ some bytes) e (or_fail_ok _ _ bytes b),
        sym (ap (λ (x : List Command × ResourceRecord). x.0) (ok_eq h₃)),
      )

  mutate_body_noop :
      (key : Text) (mutate : Option ResourceRecord → Result Stop ResourceRecord)
      (get : Text → Reply)
      → ((was : Option ResourceRecord) → mutate was ≢ err cas_noop)
      → mutate_body codec key mutate get ≢ err cas_noop
  unfolding get_record_tx mutate_body
  mutate_body_noop key mutate get never =
      bind_never (get_record_tx codec get key) _ cas_noop (decode_reply-ne codec (get key)) λ was.
        bind_never (mutate was) _ cas_noop (never was) λ rec.
          bind_never (or_fail _ (codec.marshal rec)) _ cas_noop (or_fail-ne _ (codec.marshal rec))
            λ bytes h. cc

module _ (path_escape : Text → Text) (codec : Codec) where
  -- the keys of the server show the records of a map
  abbrev pub Shows : (Text → Reply) → Items → Type 0
  Shows get items =
      (id : Identity) → get_record_tx codec get (redis_key path_escape id) ≡ ok (lookup id items)

  found_record :
      (get : Text → Reply) (key bytes : Text) (rec : ResourceRecord)
      → get key ≡ found bytes
      → codec.unmarshal bytes ≡ some rec
      → get_record_tx codec get key ≡ ok (some rec)
  unfolding get_record_tx decode_reply
  found_record get key bytes rec h u =
      ap (decode_reply codec) h ∙ ap (λ o. or_fail (codes "unmarshal") o >>= λ r. ok (some r)) u

  -- writing a record to its key shows the map with the record inserted
  Shows-insert :
      IsPathEscape path_escape
      → (get : Text → Reply) (items : Items) (id : Identity) (rec : ResourceRecord) (bytes : Text)
      → codec.unmarshal bytes ≡ some rec
      → Shows get items
      → Shows
          (λ k. after (set (redis_key path_escape id) bytes ∷ []) k (get k))
          (insert id rec items)
  unfolding after
  Shows-insert esc get items id rec bytes u shows j =
      elim (Bool-cases (redis_key path_escape id == redis_key path_escape j)) [
        | inl y ↦
            let e = redis_key_injective path_escape esc id j ((text_eq_iff _ _).0 y) in
            found_record _ _ bytes rec (rw y) u
            ∙ ap ok (
                subst (λ i. some rec ≡ lookup i (insert id rec items)) e
                  (sym (lookup-insert_self id rec items)))
        | inr n ↦
            same_reply codec _ get _ (rw n)
            ∙ shows j
            ∙ ap ok (sym (lookup-insert_ne id j rec items (λ e. key_differs id j n e)))
      ]
    where
      key_differs :
          (i k : Identity)
          → (redis_key path_escape i == redis_key path_escape k) ≡ false
          → i ≡ k
          → ⊥
      key_differs i k n e = ground (
        arith,
        n,
        text_eq_iff (redis_key path_escape i) (redis_key path_escape k),
        ap (redis_key path_escape) e,
      )

module _ {R : Type 0} (c : Client R) (codec : Codec) (path_escape : Text → Text)
    (Plain : ResourceRecord → Type 0) (view : R → Items) where
  -- A transaction that replaced the record of `id` by `rec`, in one step to the state `t`: what its
  -- commands leave is the map of the state that it stepped from with `rec` inserted.
  pub record Swapped (id : Identity) (mutate : Option ResourceRecord → Result Stop ResourceRecord)
      (t : R) (rec : ResourceRecord) : Type 0 where
    pub read_at : R
    pub commands : List Command
    pub stepped : c.exec (redis_key path_escape id ∷ []) commands read_at ≡ (committed, t)
    pub mutated : mutate (lookup id (view read_at)) ≡ ok rec
    pub shown :
        Shows path_escape codec
          (λ k. after commands k (c.get read_at k))
          (insert id rec (view read_at))

  -- If the keys of every state show its map, and `mutate` never does nothing and only gives records
  -- that survive the encoding, then a successful casMutate has swapped the record that it returns.
  pub cas_mutate_ok :
      IsPathEscape path_escape
      → IsCodec codec Plain
      → ((u : R) → Shows path_escape codec (c.get u) (view u))
      → (id : Identity) (mutate : Option ResourceRecord → Result Stop ResourceRecord)
      → ((was : Option ResourceRecord) → mutate was ≢ err cas_noop)
      → ((u : R) (rec : ResourceRecord) → mutate (lookup id (view u)) ≡ ok rec → Plain rec)
      → (r t : R) (o : Option ResourceRecord)
      → cas_mutate c codec (redis_key path_escape id) mutate r ≡ (ok o, t)
      → (rec : ResourceRecord) × (o ≡ some rec) × Swapped id mutate t rec
  unfolding cas_mutate
  cas_mutate_ok esc cod shows id mutate never plain r t none h =
      let (u, n) = watch_retry_noop c _ _ r t h in
      absurd (mutate_body_noop codec _ mutate (c.get u) never n)
  cas_mutate_ok esc cod shows id mutate never plain r t (some rec) h =
      let w = watch_retry_ok c _ _ r t rec h in
      let u = w.read_at in
      let (bytes, m, b, e) =
        mutate_body_ok codec _ mutate (c.get u) w.commands rec (lookup id (view u)) (shows u id)
          w.decided in
      (
        rec,
        refl,
        record {
          read_at = u;
          commands = w.commands;
          stepped = w.stepped;
          mutated = m;
          shown =
              subst
                (λ cs.
                  Shows path_escape codec (λ k. after cs k (c.get u k)) (insert id rec (view u)))
                (sym e)
                (Shows-insert path_escape codec esc (c.get u) (view u) id rec bytes
                  (cod.round_trip rec bytes (plain u rec m) b) (shows u));
        },
      )

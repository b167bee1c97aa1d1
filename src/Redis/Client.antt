-- ===== src/Redis/Client.antt =====
-- What the store uses of go-redis and encoding/json, as parameters. A state of type `R` is the server
-- together with whatever the other clients are about to do, so a step of this client may also carry
-- steps of theirs. `get r k` is what the GET of `k` answers in the attempt that starts in `r`: an attempt
-- reads a key once, and its GETs are separate commands, so the answers for two keys need not be of one
-- moment. The commit is one step from `r`.
use hyperfleet_applier.Base.{ℕ, Option, List, [], ◌∷◌, if◌then◌else◌, ◌==◌}
use hyperfleet_applier.Base.Text.{Text, text_Eq}
use hyperfleet_applier.Desire.Validate.{Error}
use hyperfleet_applier.Memory.Record.{ResourceRecord}

-- the result of GET: a value, redis.Nil, or another error
pub data Reply : Type 0 where
  found : Text → Reply
  nil : Reply
  failed : Text → Reply

-- a command that a transaction queues
pub data Command : Type 0 where
  set : Text → Text → Command
  del : Text → Command

-- what EXEC reports: done, a watched key has changed (redis.TxFailedErr), or another error
pub data Outcome : Type 0 where
  committed tx_failed : Outcome
  exec_error : Text → Outcome

pub record Client (R : Type 0) : Type 0 where
  pub get : R → Text → Reply
  -- EXEC of the queued commands under WATCH of the keys
  pub exec : List Text → List Command → R → Outcome × R
  -- wait at most the given nanoseconds; an error if the context ended meanwhile
  pub wait : ℕ → R → Option Error × R

-- json.Marshal and json.Unmarshal of a record; `none` is an error
pub record Codec : Type 0 where
  pub marshal : ResourceRecord → Option Text
  pub unmarshal : Text → Option ResourceRecord

-- what a key holds once commands have run
unfoldable pub after : List Command → Text → Reply → Reply
after [] k was = was
after (set j v ∷ cs) k was = after cs k (if j == k then found v else was)
after (del j ∷ cs) k was = after cs k (if j == k then nil else was)

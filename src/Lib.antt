-- ===== src/Lib.antt =====
-- The HyperFleet applier. Clients write desires, each for one Kubernetes resource, to a store; the
-- controllers of the elected leader apply or delete the resources and write the statuses back.
--
-- Base: names that are passed on, tests, texts (lists of bytes), Go maps (Dict), results, and the
--   state-and-error monad Exec of methods that change an object and may fail.
-- Desire: pkg/desire. Types has types.go, Validate has validate.go and the errors of store.go, Contract
--   has PrefixSelector.Matches, CheckOwner, IsDeleted and speccompare's Equal. Platform holds what is
--   used of apimachinery and encoding/json.
-- Memory: pkg/desire/store/memory/store.go. Record has the store and its helpers; Apply, Delete and Read
--   have the methods on each kind of desire, Query the lists and DeleteByPrefix. The mutex makes a method
--   one step, so a method is a function of the store and of the counter of owner conflicts. Reach has a
--   data type of requests and the run of a list of them. The other modules are about these operations.
-- Redis: pkg/desire/store/redis/redis.go. Key has the keys; Cas has watchRetry, casMutate, casDelete and
--   casCreate; Apply, Delete and Read have the methods. Client is what is used of go-redis, over a state
--   that may hold other clients' steps too; Codec is encoding/json on records. An attempt is
--   given by the state in which it starts: what each of its GETs answers, which need not be of one moment,
--   and the step that its EXEC is, with the report whether it was committed. Scan has scanKeys and
--   loadClusterRecords over Scanner, which is SCAN and MGET, and Listing what lists through them.
-- Controllers: internal/controllers. Cluster is what the controllers use of client-go, of the context and
--   of the stores, as operations on a state of the world, and has util's WithCondition and Equal.
--   ApplyDesire and ApplyPass have applydesire, DeleteDesire and DeletePass have deletedesire.
--   Controllers/ReadDesire has readdesire, over Mirror, which is what it uses of client-go, of the store
--   and of the context: Status and Content have status.go, Informers and SyncWait informer_manager.go,
--   Worker and Poll worker.go and controller.go. A controller's informers are a map from a desire to the
--   number of its stop channel, and a manager remembers which channels it has closed. The poll loop alone
--   changes the informers, and a worker's round reads them once, so a poll and a round are each a
--   function of the controller's state. SyncWait has the goroutine that waits for a cache, over SyncWorld,
--   where each of its calls may find the world changed by others. The other modules there are about these operations. Serial has
--   serial/controller.go, and Order the order in which a tick runs the reconcilers.
-- Leadership: internal/leadership/runnable.go. Lock has the tracking lock and the gate, and the functions
--   of internal/reconciler/leadergate.go; Handover has releaseLease, and the exit of Start with what the
--   controllers returned, in the order in which they ended.
-- Config: internal/config/config.go, its types, Validate, resolveNamespace and Redacted.
-- Tests: runs at concrete values.
--
-- An int64 is its bit pattern below 2 ^ 64, and an increment wraps. A nil slice and an empty one are the
-- same list. Error texts are kept as the facts that they print, and wrapping keeps an error. The one
-- bounded loop, watchRetry, makes sixteen attempts as the source does. The loop over SCAN, which the
-- server ends, is on fuel, with one round more than the server has left; runPollLoop, runWorker and the
-- loop of ticks go round as often as they are told. The others go along a list.
--
-- Not modelled: the elector and the goroutines of runControllers; the order in which a queue hands out
-- keys; the refresher of discovery, which is a library call on a ticker; the merge of the configuration,
-- logging and main, which are I/O and library calls; the conformance suite, charts and scripts.
pub mod Base
pub mod Desire
pub mod Memory
pub mod Redis
pub mod Config
pub mod Controllers
pub mod Leadership
pub mod Tests

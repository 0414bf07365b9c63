-- ===== src/Lib.antt =====
-- Vahak: a gateway that captures webhooks, stores them, and delivers them to their targets.
--
-- The program. An HTTP handler (internal/api) looks up the endpoint of a webhook, in its cache or in
-- the store, and sends the request, in durable mode with a delivery job, on the ingest channel. The
-- batch worker of the store (internal/store) takes the items from that channel and writes them in
-- batches, each in one transaction, whose result it reports to the waiting handlers. The handler then
-- pushes the job to a bounded queue (internal/queue), from which the workers of the forwarder
-- (internal/forwarder) take it: they transform the body, ask the circuit breaker of the target, send
-- the request, and record what came of it. What the queue drops, and what is to be tried again, a
-- sweep claims from the store by a lease. The entry point (cmd/server) reads the configuration
-- (config), opens one of the two engines, and routes the requests to the handlers.
--
-- The files.
--   Prelude, Prelude/*: lists measured by native numbers, maps as association lists, tables as lists
--     of rows with what SELECT, UPDATE and DELETE do to them, primary keys, sorting.
--   Models: internal/models/models.go.
--   Queue: internal/queue/queue.go, JobQueue and Push.
--   Circuit: internal/forwarder/circuit.go. breaker_allow, breaker_success and breaker_failure are the
--     locked parts of Allow, RecordSuccess and RecordFailure; allow, record_success and record_failure
--     are the methods of CircuitManager.
--   Retry: internal/forwarder/retry.go, CalculateNextAttempt.
--   Store/Db: the three tables of initSchema in internal/store/sqlite.go, with their keys and their
--     cascades; Store/Db/Integrity says when tables are consistent.
--   Store/Claim: the statement of ClaimPendingJobs. Store/Sqlite: the methods of SQLiteStore on
--     endpoints and requests; Store/Sqlite/Jobs: those on jobs, and PruneExpired; Store/Sqlite/Flush:
--     flushBatch, with Chunks, Bulk and Atomic about it; Store/Sqlite/Retention: about PruneExpired;
--     Store/Sqlite/History: sequences of calls; Store/Sqlite/RoundTrip: about SaveRequest and
--     GetRequest; Store/Sqlite/EndpointMap: the methods on endpoints beside a map.
--   Store/Postgres: the methods of internal/store/store.go on jobs, PruneExpired and flushBatch;
--     Store/Postgres/Records: those on endpoints and requests, and CreateDeliveryJob. Atomic is about
--     flushBatch, History about sequences of calls, Agrees about the two versions of flushBatch, and
--     Implements fills the interface.
--   Store/Worker: batchWorker of internal/store/sqlite.go and internal/store/store.go.
--   Store/Storage: what the forwarder and the handlers use of internal/store/interface.go, as a record
--     of operations and laws, which Store/Sqlite/Implements and Store/Postgres/Implements fill.
--     Store/Engine adds batches, pruning, what a pending job outlasts and what a claim hands out;
--     Store/Sqlite/Engine and Store/Postgres/Engine fill it. Store/Quiet and the modules Quiet of the
--     engines say what leaves the endpoints alone. Store/Waiting and Store/Stored are lemmas on the
--     tables that both engines share.
--   Api: the state of internal/api/handler.go; Api/Cache: UpdateEndpoint, DeleteEndpoint and the
--     lookup of CaptureWebhook; Api/Capture: CaptureWebhook; Api/Endpoints: the other handlers;
--     Api/Live: the hub of internal/api/ws.go.
--   Store/Opening: NewSQLite and NewSQLiteWithSync of internal/store/sqlite.go, NewPool of
--     internal/store/db.go.
--   Config: Load of config/config.go. Server: the checks and the routes of cmd/server/main.go, with
--     ServeWS of internal/api/ws.go, beside what the goroutines that main starts do to the store
--     (Happening); Server/Access is about the key. Server/Life: the rest of main, with
--     StartBatchWorker and Close of internal/store, as a relation between the states of the process;
--     Server/Life/Orderly and Server/Life/Shutdown are about its end, and Server/Life/Calls about the
--     calls of flushBatch.
--   Transformer: internal/transformer/transformer.go over an engine; Transformer/Pooled is about the
--     cache and the pool.
--   Forwarder: processJob of internal/forwarder/forwarder.go over any engine, and Forwarder/Deliver:
--     deliver; Survival, Gate, Failure, FirstWrite and GivesUp are about processJob.
--     Forwarder/Sweep: processPendingJobs, with Conserves, Ends and Backlog about it.
--     Forwarder/Workers: the workers of Start and the goroutines of a sweep, one call at a time.
--     Forwarder/Flusher: the goroutine of Start that marks delivered jobs. Forwarder/Dialer: the
--     address check of New, with the methods of net.IP that it calls. Forwarder/Others: about the jobs
--     that processJob is not given.
--   Forwarder/Phases: processJob in the steps between which other goroutines may run; Agrees sets
--     them beside the whole call, and Course says what they do to the row of the job.
--   System: an engine, the calls of processJob, the flusher and the other goroutines together, in any
--     order of their steps, restarts in the middle of a call included. System/Flights, System/Landing
--     and System/Locks are about one step, System/Delivery, System/OneCall, System/Recovery and
--     System/Acknowledged about the runs.
--   Tests: the theorems at concrete inputs.
--
-- The conventions. A time is a number of nanoseconds, a UUID is a number that is only compared, and a
-- UUID that is drawn, a clock that is read and an answer of the network are arguments. A statement
-- that the driver may refuse takes a `fault`, the refusal if there is one. JSON, the canonical spelling
-- of header keys, the network and the script engine are parameters. What a function gets from another
-- goroutine (room in a channel, the result of a batch, the end of a context) is an argument too, and
-- what it sends is a list in the state. The backoff is computed in floats by the source; all its
-- intermediate values are whole numbers of nanoseconds that a float holds exactly, and the random
-- factor is a function that is only known to stay below its argument.
--
-- Bounds and fuel. `chunks` of Store/Sqlite/Flush takes the number of items as fuel, and each round
-- takes at least one item away. The loops of the backoff and of the cooldown run over the rounds that
-- their counters leave. The rounds of a sweep are a list of what each round reads. Everything else is
-- structural.
--
-- Not modelled: what the drivers do, the row locks of PostgreSQL, the tickers of Start, the HTTP router,
-- what the migrations change, the websocket protocol, and the JavaScript user interface. Calls of the
-- transformer run one at a time. Logging is left out.
pub mod Prelude
pub mod Models
pub mod Api
pub mod Circuit
pub mod Config
pub mod Forwarder
pub mod Queue
pub mod Retry
pub mod Server
pub mod Store
pub mod System
pub mod Tests
pub mod Transformer

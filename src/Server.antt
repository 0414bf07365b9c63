-- ===== src/Server.antt =====
-- cmd/server/main.go: what the server checks before it starts, what it starts with, and its routes.
pub mod Access
pub mod Life
use vahak.Prelude.{
  ◌∷◌, ℕ, suc, zero, String, not, ◌&&◌, Option, none, some, List, [], str_eq, if◌then◌else◌, Bool,
  true, false,
}
use vahak.Models.{Uuid, Time, DeliveryJob}
use vahak.Queue.{new_job_queue}
use vahak.Config.{ℤ, pos, negsuc, Config, Engine, sqlite, postgres}
use vahak.Store.Error.{Cause, Error, Result, ok, err}
use vahak.Store.Db.{Db}
use vahak.Store.Opening.{SqliteDriver, PoolDriver, new_sqlite_with_sync, new_pool}
use vahak.Store.Storage.{Storage}
use vahak.Store.Engine.{Engine as StoreEngine}
use vahak.Store.Sqlite.Flush.{IngestItem}
use vahak.Store.Sqlite.Jobs.{prune_expired}
use vahak.Api.{Handler, Reply, write_error, AckMode, text_payload}
use vahak.Api.Live.{Hub, new_hub, register, unregister}
use vahak.Api.Cache.{EndpointPatch, handle_update, handle_delete}
use vahak.Api.Capture.{Ingress, Webhook, capture_webhook}
use vahak.Api.Endpoints.{
  EndpointBody, handle_create, handle_list, handle_get, handle_requests, handle_replay,
}

-- Why the process ends before it serves.
pub data Fatal : Type 0 where
  no_api_key default_api_key no_sqlite no_pool no_migrations : Fatal

-- golang-migrate: whether there are migrations to read, and what Up comes to.
pub data MigrateError : Type 0 where
  no_change failure : MigrateError

pub record Migrations : Type 0 where
  pub fails_to_init : Bool
  pub up : Option MigrateError

-- What the outside answers. `upper` is strings.ToUpper, and `inherited` the variable
-- SQLITE_SYNCHRONOUS.
pub record Drivers : Type 0 where
  pub sqlite_driver : SqliteDriver
  pub pool_driver : PoolDriver
  pub migrations : Migrations
  pub upper : String → String
  pub inherited : String

unfoldable pub validate_key : Config → Option Fatal
validate_key cfg =
    if str_eq cfg.api_key ""
    then some no_api_key
    else if str_eq cfg.api_key "docker_test_key" && not cfg.allow_insecure_key
    then some default_api_key
    else none

-- logger.Fatal ends the process.
abbrev pub unless_fatal {ℓ} : {A : Type ℓ} → Option Fatal → Result Fatal A → Result Fatal A
unless_fatal (some fatal) next = err fatal
unless_fatal none next = next

abbrev pub migrated : Option MigrateError → Option Fatal
migrated none = none
migrated (some no_change) = none
migrated (some failure) = some no_migrations

unfoldable pub run_migrations : Migrations → Option Fatal
run_migrations m = if m.fails_to_init then some no_migrations else migrated m.up

unfoldable pub open_store : Engine → Config → Drivers → Option Fatal
unfolding new_sqlite_with_sync new_pool run_migrations
open_store sqlite cfg d =
    elim (new_sqlite_with_sync d.upper d.inherited d.sqlite_driver cfg.db_path
      cfg.sqlite_synchronous) [ ok opened ↦ none | err e ↦ some no_sqlite ]
open_store postgres cfg d = elim (new_pool d.pool_driver cfg.db_pool_url) [
  | ok pool ↦ run_migrations d.migrations
  | err e ↦ some no_pool
]

-- One tick of the retention cleaner over the SQLite engine; without a positive number of days it
-- does not run.
unfoldable pub cleaner_tick : Option Cause → Option Cause → Time → ℤ → Db → Db
cleaner_tick requests_fault jobs_fault now (negsuc n) db = db
cleaner_tick requests_fault jobs_fault now (pos zero) db = db
cleaner_tick requests_fault jobs_fault now (pos (suc n)) db =
    (prune_expired requests_fault jobs_fault now (suc n) db).0

-- What a request is routed to, with what the handler reads of it and of the outside. The router
-- finds the route.
pub data Route : Type 0 where
  health : Route
  captures : Ingress → Webhook → Route
  creates : Option Cause → Uuid → Time → Option EndpointBody → Route
  lists : Option Cause → Route
  gets : Option Cause → Option Uuid → Route
  updates :
      Option Cause → Option Cause → Option Cause → Time → Option Uuid → Option EndpointPatch → Route
  deletes : Option Cause → Option Uuid → Route
  requests : Option Cause → Option Uuid → Route
  replays : Option Cause → Option Cause → Option Cause → Uuid → Time → Option Uuid → Route
  watches : Option Cause → Option Uuid → Option ℕ → Route
  files : Route

-- The group of /api, which the key protects.
unfoldable pub is_protected : Route → Bool
is_protected health = false
is_protected (captures w r) = false
is_protected files = false
is_protected _ = true

pub record HttpRequest : Type 0 where
  pub x_api_key : String
  pub route : Route

abbrev pub unauthorized : Reply
unauthorized = record { status = 401; payload = text_payload "Unauthorized" }

module _ (storage : Storage) where
  open storage use {State}

  -- api.New, with the hub and the queue that main makes.
  abbrev pub new_handler : AckMode → State → Handler storage
  new_handler mode s = record {
    store = s;
    hub = new_hub;
    queue = new_job_queue 50000;
    ep_cache = [];
    accepted = [];
    ack_mode = mode;
    result_pool = [];
    written = [];
  }

  -- From the configuration to a server that listens.
  unfoldable pub start : Config → Drivers → State → Result Fatal (Handler storage)
  unfolding validate_key open_store
  start cfg d s =
      unless_fatal (validate_key cfg)
        (unless_fatal (open_store cfg.db_engine cfg d) (ok (new_handler cfg.ack_mode s)))

  -- The upgrader answers itself if it fails, and then gives no connection.
  unfoldable pub join : Uuid → Option ℕ → Handler storage → Handler storage
  join id none h = h
  join id (some conn) h = record h { hub = register id conn h.hub }

  -- ServeWS up to its loop.
  unfoldable pub serve_ws :
      Option Cause → Option Uuid → Option ℕ → Handler storage → Option Reply × Handler storage
  unfolding join
  serve_ws fault none conn h = (some (write_error 400 "invalid endpoint id"), h)
  serve_ws fault (some id) conn h = elim (storage.get_endpoint fault id h.store) [
    | err e ↦ (some (write_error 404 "endpoint not found"), h)
    | ok ep ↦ (none, join id conn h)
  ]

  -- The end of its loop: the client is gone.
  abbrev pub leave : Uuid → ℕ → Handler storage → Handler storage
  leave id conn h = record h { hub = unregister id conn h.hub }

  -- A handler that changes the tables only.
  abbrev pub on_store : Handler storage → Reply × State → Option Reply × Handler storage
  on_store h (reply, s) = (some reply, record h { store = s })

  abbrev pub answered : Reply × Handler storage → Option Reply × Handler storage
  answered (reply, h) = (some reply, h)

  -- The handlers; none is an answer that the server does not write itself.
  unfoldable pub dispatch : Route → Handler storage → Option Reply × Handler storage
  unfolding serve_ws
  dispatch health h = (some (record { status = 200; payload = text_payload "ok" }), h)
  dispatch (captures w r) h = answered (capture_webhook storage w r h)
  dispatch (creates fault id now body) h =
      on_store h (handle_create storage fault id now body h.store)
  dispatch (lists fault) h = (some (handle_list storage fault h.store), h)
  dispatch (gets fault id) h = (some (handle_get storage fault id h.store), h)
  dispatch (updates read_fault fault reread_fault now id patch) h =
      answered (handle_update storage read_fault fault reread_fault now id patch h)
  dispatch (deletes fault id) h = answered (handle_delete storage fault id h)
  dispatch (requests fault id) h = (some (handle_requests storage fault id h.store), h)
  dispatch (replays read_fault endpoint_fault fault id now request_id) h =
      on_store h (handle_replay storage read_fault endpoint_fault fault id now request_id h.store)
  dispatch (watches fault id conn) h = serve_ws fault id conn h
  dispatch files h = (none, h)

  -- apiKeyMiddleware.
  unfoldable pub check_key :
      Config → String → Route → Handler storage → Option Reply × Handler storage
  unfolding dispatch
  check_key cfg key route h =
      if str_eq key cfg.api_key then dispatch route h else (some unauthorized, h)

  unfoldable pub serve : Config → HttpRequest → Handler storage → Option Reply × Handler storage
  unfolding check_key is_protected
  serve cfg r h =
      if is_protected r.route then check_key cfg r.x_api_key r.route h else dispatch r.route h

module _ (engine : StoreEngine) where
  open engine use {storage}

  -- A request, or what a goroutine that main starts does to the store: the batch worker, the sweeper,
  -- processJob and the flusher of the forwarder, and the retention cleaner.
  pub data Happening : Type 0 where
    asks : HttpRequest → Happening
    flushes : engine.Faults → List IngestItem → Happening
    claims : Option Cause → Time → ℕ → ℕ → Happening
    saves : Option Cause → Time → DeliveryJob → Happening
    marks : Option Cause → Time → List Uuid → Happening
    prunes : Option Cause → Option Cause → Time → ℕ → Happening

  abbrev pub on_tables : storage.State → Handler storage → Handler storage
  on_tables s h = record h { store = s }

  unfoldable pub happen : Config → Happening → Handler storage → Handler storage
  unfolding serve
  happen cfg (asks r) h = (serve storage cfg r h).1
  happen cfg (flushes faults items) h = on_tables (engine.flush_batch faults items h.store).0 h
  happen cfg (claims fault now lease limit) h =
      on_tables (storage.claim_pending_jobs fault now lease limit h.store).0 h
  happen cfg (saves fault now job) h =
      on_tables (storage.save_delivery_job fault now job h.store).0 h
  happen cfg (marks fault now ids) h =
      on_tables (storage.batch_mark_delivered fault now ids h.store).0 h
  happen cfg (prunes requests_fault jobs_fault now days) h =
      on_tables (engine.prune_expired requests_fault jobs_fault now days h.store).0 h

  -- The state after all this, in the order in which it happens.
  unfoldable pub serve_all : Config → List Happening → Handler storage → Handler storage
  unfolding happen
  serve_all cfg [] h = h
  serve_all cfg (e ∷ es) h = serve_all cfg es (happen cfg e h)

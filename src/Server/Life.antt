-- ===== src/Server/Life.antt =====
-- The life of the process, from its start to its end: main of cmd/server/main.go, with the HTTP
-- server that it listens on, the batch worker of internal/store, and Close, which waits for it.
pub mod Calls
pub mod Orderly
pub mod Shutdown
use vahak.Prelude.{
  ℕ, ◌+◌, ◌-◌, ◌<◌, ◌≡◌, Bool, true, false, List, [], ◌∷◌, ◌++◌, length, leb, map, if◌then◌else◌,
}
use vahak.Store.Sqlite.Flush.{IngestItem}
use vahak.Config.{Engine, sqlite, postgres}
use vahak.Store.Worker.{
  sqlite_limit, postgres_limit, Worker, new_worker, drain_limit, flush_buffer, Event, arrives,
  receives, ticks, work,
}

-- How far main has come: in ListenAndServe, in Wait of the group that the worker is in, past the
-- closing of the database, and returned.
pub data Stage : Type 0 where
  serving waiting closed exited : Stage

-- The loop of batchWorker, its drain after cancellation, and its return.
pub data Mode : Type 0 where
  running draining returned : Mode

abbrev pub is_serving : Stage → Bool
is_serving serving = true
is_serving waiting = false
is_serving closed = false
is_serving exited = false

abbrev pub is_closed : Stage → Bool
is_closed serving = false
is_closed waiting = false
is_closed closed = true
is_closed exited = true

abbrev pub is_exited : Stage → Bool
is_exited serving = false
is_exited waiting = false
is_exited closed = false
is_exited exited = true

abbrev pub is_running : Mode → Bool
is_running running = true
is_running draining = false
is_running returned = false

abbrev pub is_returned : Mode → Bool
is_returned running = false
is_returned draining = false
is_returned returned = true

-- `shutting` once Shutdown has closed the listener, `in_flight` the handlers that have not ended,
-- and `batch_wg` the counter of the group. What a reader of the history knows: `sent` are the items
-- that handlers put into the channel, `flushed` the batches that flushBatch was called with, each
-- with whether the context of the call was live, `stored` what `flushed` was when the database was
-- closed, `left_behind` the handlers in flight when the worker returned, and `late_turns` the items
-- or ticks that the select of the worker took after the cancellation. With a context that is
-- cancelled flushBatch begins no transaction.
pub record Life : Type 0 where
  pub stage : Stage
  pub shutting : Bool
  pub in_flight : ℕ
  pub batch_wg : ℕ
  pub mode : Mode
  pub worker : Worker
  pub sent : List IngestItem
  pub flushed : List (Bool × List IngestItem)
  pub stored : List (Bool × List IngestItem)
  pub left_behind : ℕ
  pub late_turns : ℕ

-- The worker after a turn, and the calls of flushBatch in it.
unfoldable pub log_calls : Bool → Worker → Life → Life
log_calls live w p = record p {
  worker = record w { batches = [] };
  flushed = p.flushed ++ map (λ b. (live, b)) w.batches;
  late_turns = if live then p.late_turns else p.late_turns + 1;
}

-- batchWorker of each engine.
abbrev pub sqlite_worker : Event → Worker → Worker
sqlite_worker e w = work sqlite_limit e w

abbrev pub postgres_worker : Event → Worker → Worker
postgres_worker e w = work postgres_limit e w

unfoldable pub batch_worker : Engine → Event → Worker → Worker
batch_worker sqlite e w = sqlite_worker e w
batch_worker postgres e w = postgres_worker e w

-- The room in the channel of main.
abbrev pub ingest_cap : ℕ
ingest_cap = 50000

-- Add, and the goroutine.
unfoldable pub start_batch_worker : Life → Life
start_batch_worker p = record p { batch_wg = p.batch_wg + 1; mode = running }

-- main, up to ListenAndServe.
unfoldable pub listening : Life
unfolding start_batch_worker
listening = start_batch_worker (record {
  stage = serving;
  shutting = false;
  in_flight = 0;
  batch_wg = 0;
  mode = returned;
  worker = new_worker;
  sent = [];
  flushed = [];
  stored = [];
  left_behind = 0;
  late_turns = 0;
})

-- A handler's send, and the end of the handler.
unfoldable pub send : Engine → IngestItem → ℕ → Life → Life
send engine item rest p = record p {
  in_flight = rest;
  worker = batch_worker engine (arrives item) p.worker;
  sent = p.sent ++ item ∷ [];
}

-- One round of the inner loop of the drain.
unfoldable pub drain_one : List IngestItem → Worker → Worker
drain_one [] w = w
drain_one (item ∷ ch) w =
    let buffer = w.buffer ++ item ∷ [] in
    let taken = record w { ingest_ch = ch; buffer = buffer } in
    if leb drain_limit (length buffer) then flush_buffer buffer taken else taken

-- The last batch of the drain, and the deferred Done.
unfoldable pub drained : Life → Life
unfolding log_calls
drained p =
    log_calls true (flush_buffer p.worker.buffer p.worker)
      (record p { mode = returned; batch_wg = p.batch_wg - 1; left_behind = p.in_flight })

-- Close, once Wait has returned.
unfoldable pub close : Life → Life
close p = record p { stage = closed; stored = p.flushed }

-- What may happen next. The select of the worker may still take an item, or a tick, after
-- cancellation, and flushes it with the cancelled context; the drain has a context of its own. Nobody
-- waits for Shutdown to return.
pub data Moves (engine : Engine) : Life → Life → Type 0 where
  accepts :
      (p : Life) → p.shutting ≡ false → Moves engine p (record p { in_flight = p.in_flight + 1 })
  sends :
      (p : Life) (rest : ℕ) (item : IngestItem)
      → is_exited p.stage ≡ false
      → p.in_flight ≡ rest + 1
      → length p.worker.ingest_ch < ingest_cap
      → Moves engine p (send engine item rest p)
  answers :
      (p : Life) (rest : ℕ)
      → p.in_flight ≡ rest + 1
      → Moves engine p (record p { in_flight = rest })
  receives_batch :
      (p : Life)
      → p.mode ≡ running
      → Moves engine p (log_calls (is_serving p.stage) (batch_worker engine receives p.worker) p)
  clock_ticks :
      (p : Life)
      → p.mode ≡ running
      → Moves engine p (log_calls (is_serving p.stage) (batch_worker engine ticks p.worker) p)
  interrupted : (p : Life) → p.stage ≡ serving → Moves engine p (record p { shutting = true })
  cancels :
      (p : Life)
      → p.stage ≡ serving
      → p.shutting ≡ true
      → Moves engine p (record p { stage = waiting })
  sees_cancel :
      (p : Life)
      → p.mode ≡ running
      → is_serving p.stage ≡ false
      → Moves engine p (record p { mode = draining })
  drains :
      (p : Life)
      → p.mode ≡ draining
      → Moves engine p (log_calls true (drain_one p.worker.ingest_ch p.worker) p)
  returns : (p : Life) → p.mode ≡ draining → p.worker.ingest_ch ≡ [] → Moves engine p (drained p)
  closes : (p : Life) → p.stage ≡ waiting → p.batch_wg ≡ 0 → Moves engine p (close p)
  exits : (p : Life) → p.stage ≡ closed → Moves engine p (record p { stage = exited })

pub data Reaches (engine : Engine) (p : Life) : Life → Type 0 where
  here : Reaches engine p p
  next : {q r : Life} → Reaches engine p q → Moves engine q r → Reaches engine p r

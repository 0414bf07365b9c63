-- ===== src/Store/Worker.antt =====
-- batchWorker of internal/store/sqlite.go and internal/store/store.go: the goroutine that takes
-- captured webhooks from the ingest channel and flushes them in batches. The two engines differ in
-- the limit only.
pub mod Drain
pub mod Sizes
use vahak.Prelude.{ℕ, Bool, List, [], ◌∷◌, ◌++◌, length, ltb, leb, if◌then◌else◌}
use vahak.Store.Sqlite.Flush.{IngestItem}

-- The limits of SQLite and of PostgreSQL, and that of the drain at the end.
abbrev pub sqlite_limit : ℕ
sqlite_limit = 1000

abbrev pub postgres_limit : ℕ
postgres_limit = 500

abbrev pub drain_limit : ℕ
drain_limit = 500

-- What is in the channel, what is in `buffer`, and the batches that flushBatch was called with, the
-- oldest first.
pub record Worker : Type 0 where
  pub ingest_ch : List IngestItem
  pub buffer : List IngestItem
  pub batches : List (List IngestItem)

abbrev pub new_worker : Worker
new_worker = record { ingest_ch = []; buffer = []; batches = [] }

-- `for len(buffer) < limit`, until the channel is empty: the buffer, and what stays in the channel.
unfoldable pub fill : ℕ → List IngestItem → List IngestItem → List IngestItem × List IngestItem
fill limit buffer [] = (buffer, [])
fill limit buffer (next ∷ ch) =
    let rest = fill limit (buffer ++ next ∷ []) ch in
    if ltb (length buffer) limit then rest else (buffer, next ∷ ch)

-- The batches of the drain after cancellation.
unfoldable pub drain : List IngestItem → List IngestItem → List (List IngestItem)
drain [] [] = []
drain (item ∷ buffer) [] = (item ∷ buffer) ∷ []
drain buffer (item ∷ ch) =
    let full = drain [] ch in
    let more = drain (buffer ++ item ∷ []) ch in
    if leb drain_limit (length (buffer ++ item ∷ [])) then (buffer ++ item ∷ []) ∷ full else more

-- A handler sends, or one of the two cases of the select that keep the worker running.
pub data Event : Type 0 where
  arrives : IngestItem → Event
  receives ticks : Event

unfoldable pub flush_buffer : List IngestItem → Worker → Worker
flush_buffer [] w = w
flush_buffer (item ∷ items) w = record w { buffer = []; batches = w.batches ++ (item ∷ items) ∷ [] }

unfoldable pub receive : ℕ → List IngestItem → Worker → Worker
receive limit [] w = w
receive limit (item ∷ ch) w =
    let (buffer, rest) = fill limit (w.buffer ++ item ∷ []) ch in
    record w { ingest_ch = rest; buffer = []; batches = w.batches ++ buffer ∷ [] }

unfoldable pub work : ℕ → Event → Worker → Worker
unfolding flush_buffer receive
work limit (arrives item) w = record w { ingest_ch = w.ingest_ch ++ item ∷ [] }
work limit receives w = receive limit w.ingest_ch w
work limit ticks w = flush_buffer w.buffer w

unfoldable pub work_all : ℕ → List Event → Worker → Worker
work_all limit [] w = w
work_all limit (e ∷ es) w = work_all limit es (work limit e w)

-- Cancellation: the drain, and the worker returns.
unfoldable pub stop : Worker → Worker
unfolding drain
stop w = record w { ingest_ch = []; buffer = []; batches = w.batches ++ drain w.buffer w.ingest_ch }

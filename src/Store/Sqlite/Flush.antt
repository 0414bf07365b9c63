-- ===== src/Store/Sqlite/Flush.antt =====
-- internal/store/sqlite.go: flushBatch, one transaction for a batch of captured webhooks.
use vahak.Prelude.{ℕ, zero, suc, String, Option, none, some, List, [], ◌∷◌, length, take, drop, map}
use vahak.Models.{Request, DeliveryJob}
use vahak.Store.Error.{Cause, Error, bare, Result, ok, err, ◌>>=◌, exec, wrap}
use vahak.Store.Codec.{HeaderCodec}
use vahak.Store.Db.{Db, RequestRow, JobRow, insert_request, insert_job, insert_all}
use vahak.Store.Sqlite.{request_row}
use vahak.Store.Sqlite.Jobs.{job_row}

-- IngestItem of internal/store/store.go. `result` names the channel, if there is one.
pub record IngestItem : Type 0 where
  pub request : Request
  pub job : Option DeliveryJob
  pub result : Option ℕ

-- What is sent on the items' channels: `none` is a nil error.
abbrev pub Notice : Type 0
Notice = ℕ × Option Error

unfoldable pub notify : Option Error → List IngestItem → List Notice
notify e [] = []
notify e (item ∷ items) = elim item.result [
  | none ↦ notify e items
  | some ch ↦ (ch, e) ∷ notify e items
]

-- The driver's refusals: of BEGIN, of the i-th chunk of each table, and of COMMIT.
pub record FlushFaults : Type 0 where
  pub begin_fault : Option Cause
  pub request_fault : ℕ → Option Cause
  pub job_fault : ℕ → Option Cause
  pub commit_fault : Option Cause

abbrev pub chunk_size : ℕ
chunk_size = 100

-- `for i := 0; i < len(items); i += chunkSize`, with fuel for the rounds.
unfoldable pub chunks {ℓ} : {A : Type ℓ} → ℕ → List A → List (List A)
chunks fuel [] = []
chunks zero (x ∷ xs) = []
chunks (suc fuel) (x ∷ xs) = take chunk_size (x ∷ xs) ∷ chunks fuel (drop chunk_size (x ∷ xs))

-- item.Job of the items that have one.
unfoldable pub valid_jobs : List IngestItem → List DeliveryJob
valid_jobs [] = []
valid_jobs (item ∷ items) = elim item.job [
  | none ↦ valid_jobs items
  | some job ↦ job ∷ valid_jobs items
]

-- The job's columns; `last_attempt` is written as NULL.
abbrev pub ingest_job_row : DeliveryJob → JobRow
ingest_job_row job = job_row (record job { last_attempt = none })

-- One multi-row INSERT for a chunk that has jobs, and no statement for one that has none.
unfoldable pub job_chunk : Option Cause → List IngestItem → Db → Result Cause Db
job_chunk fault chunk db = elim (valid_jobs chunk) [
  | [] ↦ ok db
  | job ∷ jobs ↦ exec fault (insert_all insert_job (map ingest_job_row (job ∷ jobs)) db)
]

-- One statement after another, until one fails.
unfoldable pub run_chunks :
    (Option Cause → List IngestItem → Db → Result Cause Db)
    → (ℕ → Option Cause)
    → ℕ
    → List (List IngestItem)
    → Db
    → Result Cause Db
run_chunks statement fault i [] db = ok db
run_chunks statement fault i (chunk ∷ more) db =
    statement (fault i) chunk db >>= run_chunks statement fault (suc i) more

-- The tables after the batch, and what each waiting handler is told.
unfoldable pub settle : Db → List IngestItem → Result Error Db → Db × List Notice
settle db items (ok db') = (db', notify none items)
settle db items (err e) = (db, notify (some e) items)

abbrev pub finish_tx : Option Cause → Db → Result Error Db
finish_tx none db = ok db
finish_tx (some c) db = err (bare c)

-- BEGIN, the requests, the jobs, COMMIT; an error of any of them is a rollback.
unfoldable pub tx_steps :
    FlushFaults → (Db → Result Cause Db) → (Db → Result Cause Db) → Db → Result Error Db
tx_steps faults requests jobs db =
    wrap "begin tx" (exec faults.begin_fault (ok db))
    >>= (λ d. wrap "exec chunk requests" (requests d))
    >>= (λ d. wrap "exec chunk delivery_jobs" (jobs d))
    >>= finish_tx faults.commit_fault

module _ (json : HeaderCodec) where
  -- `headersJSON, _ := json.Marshal(…)`: a failure leaves the text empty.
  abbrev pub headers_text : Option String → String
  headers_text none = ""
  headers_text (some text) = text

  abbrev pub ingest_row : IngestItem → RequestRow
  ingest_row item = request_row json item.request (headers_text (json.marshal item.request.headers))

  -- One multi-row INSERT.
  unfoldable pub request_chunk : Option Cause → List IngestItem → Db → Result Cause Db
  request_chunk fault chunk db = exec fault (insert_all insert_request (map ingest_row chunk) db)

  unfoldable pub transaction : FlushFaults → List IngestItem → Db → Result Error Db
  unfolding run_chunks request_chunk job_chunk tx_steps
  transaction faults items db =
      let parts = chunks (length items) items in
      tx_steps faults (run_chunks request_chunk faults.request_fault 0 parts)
        (run_chunks job_chunk faults.job_fault 0 parts) db

  unfoldable pub flush_batch : FlushFaults → List IngestItem → Db → Db × List Notice
  unfolding settle transaction
  flush_batch faults [] db = (db, [])
  flush_batch faults (item ∷ items) db =
      settle db (item ∷ items) (transaction faults (item ∷ items) db)

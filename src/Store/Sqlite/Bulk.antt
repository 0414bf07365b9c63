-- ===== src/Store/Sqlite/Bulk.antt =====
-- A batch inserted by two plain INSERTs, and the transaction of flushBatch against it
-- (internal/store/sqlite.go).
use vahak.Prelude.{
  ℕ, ◌≡◌, refl, ap, subst, ◌∙◌, inl, inr, Option, none, List, [], ◌∷◌, ◌++◌, map, length, arith,
}
use mathlib.Core.List.{map-append, append-nil, append_assoc}
use vahak.Store.Error.{Cause, Result, ok, ◌>>=◌, >>=-eq-ok, Result-cases}
use vahak.Store.Codec.{HeaderCodec}
use vahak.Store.Db.{Db, RequestRow, JobRow, insert_request, insert_job, insert_all}
use vahak.Store.Db.Integrity.{insert_request-ok, insert_job-ok}
use vahak.Store.Sqlite.Flush.{
  IngestItem, FlushFaults, chunks, valid_jobs, ingest_job_row, ingest_row, job_chunk, request_chunk,
  run_chunks, tx_steps, transaction,
}
use vahak.Store.Sqlite.Chunks.{
  concat-chunks, insert_all-append, run_chunks-none, run_chunks-ok, bulk_jobs, job_runs-none,
  job_runs-ok,
}

tx_steps-ok :
    (faults : FlushFaults) (requests jobs : Db → Result Cause Db) (db db' : Db)
    → tx_steps faults requests jobs db ≡ ok db'
    → (mid : Db) × (requests db ≡ ok mid) × (jobs mid ≡ ok db')
unfolding tx_steps
tx_steps-ok faults requests jobs db db' h = elim (Result-cases (requests db)) [
  | inl (mid, e) ↦ (mid, e, ground arith)
  | inr (c, e) ↦ absurd (ground arith)
]

-- A driver that refuses nothing.
abbrev pub no_faults : FlushFaults
no_faults = record {
  begin_fault = none;
  request_fault = λ _. none;
  job_fault = λ _. none;
  commit_fault = none;
}

tx_steps-none :
    (requests jobs : Db → Result Cause Db) (db mid db' : Db)
    → requests db ≡ ok mid
    → jobs mid ≡ ok db'
    → tx_steps no_faults requests jobs db ≡ ok db'
unfolding tx_steps
tx_steps-none requests jobs db mid db' r j = rw (r, j)

pub insert_all-requests :
    (rows : List RequestRow) (db db' : Db)
    → insert_all insert_request rows db ≡ ok db'
    → (db'.requests ≡ db.requests ++ rows) × (db'.jobs ≡ db.jobs) × (db'.endpoints ≡ db.endpoints)
unfolding insert_all
insert_all-requests [] db db' h = ground (arith, append-nil db.requests)
insert_all-requests (row ∷ rows) db db' h =
    let (mid, first, rest) = >>=-eq-ok (insert_request row db) (insert_all insert_request rows) h in
    ground (
      arith,
      insert_request-ok row db first,
      insert_all-requests rows mid db' rest,
      append_assoc db.requests (row ∷ []) rows,
    )

pub insert_all-jobs :
    (rows : List JobRow) (db db' : Db)
    → insert_all insert_job rows db ≡ ok db'
    → (db'.jobs ≡ db.jobs ++ rows) × (db'.requests ≡ db.requests) × (db'.endpoints ≡ db.endpoints)
unfolding insert_all
insert_all-jobs [] db db' h = ground (arith, append-nil db.jobs)
insert_all-jobs (row ∷ rows) db db' h =
    let (mid, first, rest) = >>=-eq-ok (insert_job row db) (insert_all insert_job rows) h in
    ground (
      arith,
      insert_job-ok row db first,
      insert_all-jobs rows mid db' rest,
      append_assoc db.jobs (row ∷ []) rows,
    )

module _ (json : HeaderCodec) where
  unfoldable pub bulk_requests : List IngestItem → Db → Result Cause Db
  bulk_requests items db = insert_all insert_request (map (ingest_row json) items) db

  bulk_requests-nil : (db : Db) → bulk_requests [] db ≡ ok db
  unfolding bulk_requests insert_all
  bulk_requests-nil db = refl

  bulk_requests-append :
      (xs ys : List IngestItem) (db : Db)
      → bulk_requests (xs ++ ys) db ≡ (bulk_requests xs db >>= bulk_requests ys)
  unfolding bulk_requests
  bulk_requests-append xs ys db = rw map-append (insert_all-append insert_request _ _ db)

  request_chunk-none :
      (xs : List IngestItem) (db : Db) → request_chunk json none xs db ≡ bulk_requests xs db
  unfolding request_chunk bulk_requests
  request_chunk-none xs db = refl

  request_chunk-ok :
      (fault : Option Cause) (xs : List IngestItem) (db db' : Db)
      → request_chunk json fault xs db ≡ ok db'
      → bulk_requests xs db ≡ ok db'
  unfolding request_chunk bulk_requests
  request_chunk-ok fault xs db db' h = ground arith

  -- The batch as two plain INSERTs: every request, and then every job that there is.
  unfoldable pub bulk_insert : List IngestItem → Db → Result Cause Db
  unfolding bulk_requests bulk_jobs
  bulk_insert items db = bulk_requests items db >>= bulk_jobs items

  pub bulk_insert-nil : (db : Db) → bulk_insert [] db ≡ ok db
  unfolding bulk_insert insert_all valid_jobs
  bulk_insert-nil db = refl

  pub bulk_insert-rows :
      (items : List IngestItem) (db db' : Db)
      → bulk_insert items db ≡ ok db'
      → (db'.requests ≡ db.requests ++ map (ingest_row json) items)
        × (db'.jobs ≡ db.jobs ++ map ingest_job_row (valid_jobs items))
        × (db'.endpoints ≡ db.endpoints)
  unfolding bulk_insert
  bulk_insert-rows items db db' h =
      let (mid, r, j) = >>=-eq-ok (bulk_requests items db) (bulk_jobs items) h in
      ground (
        arith,
        insert_all-requests (map (ingest_row json) items) db mid r,
        insert_all-jobs (map ingest_job_row (valid_jobs items)) mid db' j,
      )

  request_runs-none :
      (items : List IngestItem) (db : Db)
      → run_chunks (request_chunk json) (λ _. none) 0 (chunks (length items) items) db
        ≡ bulk_requests items db
  request_runs-none items db =
      run_chunks-none (request_chunk json) bulk_requests bulk_requests-nil bulk_requests-append
        request_chunk-none request_chunk-ok (λ _. none) 0 (chunks (length items) items) db
        (λ _. refl)
      ∙ ap (λ xs. bulk_requests xs db) (concat-chunks (length items) items (omega arith))

  request_runs-ok :
      (fault : ℕ → Option Cause) (items : List IngestItem) (db db' : Db)
      → run_chunks (request_chunk json) fault 0 (chunks (length items) items) db ≡ ok db'
      → bulk_requests items db ≡ ok db'
  request_runs-ok fault items db db' h =
      subst (λ xs. bulk_requests xs db ≡ ok db') (concat-chunks (length items) items (omega arith))
        (run_chunks-ok (request_chunk json) bulk_requests bulk_requests-nil bulk_requests-append
          request_chunk-none request_chunk-ok fault 0 (chunks (length items) items) db h)

  pub transaction-ok :
      (faults : FlushFaults) (items : List IngestItem) (db db' : Db)
      → transaction json faults items db ≡ ok db'
      → bulk_insert items db ≡ ok db'
  unfolding transaction bulk_insert
  transaction-ok faults items db db' h =
      let parts = chunks (length items) items in
      let (mid, requests_ok, jobs_ok) =
        tx_steps-ok faults (run_chunks (request_chunk json) faults.request_fault 0 parts)
          (run_chunks job_chunk faults.job_fault 0 parts) db db' h in
      ap (λ r. r >>= bulk_jobs items)
        (request_runs-ok faults.request_fault items db mid requests_ok)
      ∙ job_runs-ok faults.job_fault items mid db' jobs_ok

  pub transaction-none :
      (items : List IngestItem) (db db' : Db)
      → bulk_insert items db ≡ ok db'
      → transaction json no_faults items db ≡ ok db'
  unfolding transaction bulk_insert
  transaction-none items db db' h =
      let parts = chunks (length items) items in
      let (mid, requests_ok, jobs_ok) = >>=-eq-ok (bulk_requests items db) (bulk_jobs items) h in
      tx_steps-none (run_chunks (request_chunk json) (λ _. none) 0 parts)
        (run_chunks job_chunk (λ _. none) 0 parts) db mid db'
        (request_runs-none items db ∙ requests_ok) (job_runs-none items mid ∙ jobs_ok)

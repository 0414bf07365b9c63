-- ===== src/Store/Postgres/Agrees.antt =====
-- flushBatch of the two engines (internal/store/store.go, internal/store/sqlite.go).
use vahak.Prelude.{◌≡◌, refl, sym, ap, ◌∙◌, none, List, [], ◌∷◌, map, All}
use vahak.Models.{DeliveryJob}
use vahak.Store.Error.{ok, >>=-eq-ok}
use vahak.Store.Codec.{HeaderCodec}
use vahak.Store.Db.{Db, insert_job, insert_all}
use vahak.Store.Sqlite.Jobs.{job_row}
use vahak.Store.Sqlite.Flush.{IngestItem, valid_jobs, ingest_job_row, settle, flush_batch}
use vahak.Store.Sqlite.Chunks.{bulk_jobs}
use vahak.Store.Sqlite.Bulk.{no_faults, bulk_requests, bulk_insert}
use vahak.Store.Sqlite.Atomic.{flush-no_faults}
use vahak.Store.Postgres.{CopyFaults, copy_jobs, copy_requests, copy_transaction, copy_batch}

abbrev pub no_copy_faults : CopyFaults
no_copy_faults = record {
  begin_fault = none;
  request_fault = none;
  job_fault = none;
  commit_fault = none;
}

-- A job that was never tried.
abbrev pub IsNew : DeliveryJob → Type 0
IsNew job = job.last_attempt ≡ none

same_rows : (jobs : List DeliveryJob) → All IsNew jobs → map job_row jobs ≡ map ingest_job_row jobs
same_rows [] h = refl
same_rows (job ∷ jobs) h =
    ap (λ l. job_row (record job { last_attempt = l }) ∷ map job_row jobs) h.0
    ∙ ap (λ rows. ingest_job_row job ∷ rows) (same_rows jobs h.1)

copy_jobs-none :
    (jobs : List DeliveryJob) (db : Db)
    → All IsNew jobs
    → copy_jobs none jobs db ≡ insert_all insert_job (map ingest_job_row jobs) db
unfolding copy_jobs insert_all
copy_jobs-none [] db h = refl
copy_jobs-none (job ∷ jobs) db h =
    ap (λ rows. insert_all insert_job rows db) (same_rows (job ∷ jobs) h)

module _ (json : HeaderCodec) where
  copy_transaction-none :
      (items : List IngestItem) (db mid db' : Db)
      → copy_requests json none items db ≡ ok mid
      → copy_jobs none (valid_jobs items) mid ≡ ok db'
      → copy_transaction json no_copy_faults items db ≡ ok db'
  unfolding copy_transaction
  copy_transaction-none items db mid db' r j = rw (r, j)

  -- The two engines agree on a batch that they can insert: for jobs that were never tried and
  -- drivers that refuse nothing, if the plain INSERTs of the whole batch succeed, the two CopyFroms
  -- of the PostgreSQL engine and the chunked INSERTs of the SQLite engine leave the same tables and
  -- tell every waiting handler the same.
  pub copy_batch-flush_batch :
      (items : List IngestItem) (db db' : Db)
      → All IsNew (valid_jobs items)
      → bulk_insert json items db ≡ ok db'
      → copy_batch json no_copy_faults items db ≡ flush_batch json no_faults items db
  unfolding copy_batch bulk_insert bulk_requests bulk_jobs copy_requests settle
  copy_batch-flush_batch items db db' fresh h =
      let (mid, r, j) = >>=-eq-ok (bulk_requests json items db) (bulk_jobs items) h in
      ap (settle db items)
        (copy_transaction-none items db mid db' r (copy_jobs-none (valid_jobs items) mid fresh ∙ j))
      ∙ sym (flush-no_faults json items db db' h)

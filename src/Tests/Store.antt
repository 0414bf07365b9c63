-- ===== src/Tests/Store.antt =====
-- The store at concrete inputs.
use vahak.Prelude.{
  ◌+◌, ◌*◌, ◌≤◌, ◌≡◌, ◌≢◌, refl, ◌⊎◌, false, none, some, [], ◌∷◌, ◌++◌, arith, Memᴰ, All, any,
  select, update_where,
}
use vahak.Prelude.Sort.{sort_by, insert_by}
use vahak.Models.{is_terminal}
use vahak.Store.Error.{Error, ok}
use vahak.Store.Db.{Db, update_jobs, insert_all, insert_request, insert_job}
use vahak.Store.Db.Integrity.{IsConsistent}
use vahak.Store.Claim.{claim_rows, due_jobs}
use vahak.Store.Claim.Lease.{claim_exclusive}
use vahak.Store.Sqlite.Jobs.{prune_expired, day}
use vahak.Store.Sqlite.Flush.{
  notify, chunks, run_chunks, flush_batch, ingest_row, ingest_job_row, valid_jobs,
}
use vahak.Store.Sqlite.Retention.{prune_keeps_unfinished, prune_takes_the_rest}
use vahak.Store.Sqlite.Bulk.{bulk_insert, no_faults}
use vahak.Store.Sqlite.Atomic.{flush_all_or_nothing, flush_ack_durable}
use vahak.Tests.Fixtures.{
  empty_json, sample_db, early_job, late_job, job_at_time, captured_item, captured_job,
}

pub sample_db-IsConsistent : IsConsistent sample_db
unfolding any
sample_db-IsConsistent = record {
  endpoint_ids = (refl, tt);
  request_ids = (refl, (refl, tt));
  job_ids = (refl, (refl, tt));
  request_endpoints = (refl, (refl, tt));
  job_requests = (refl, (refl, tt));
}

-- At time 100 the early job is due, and is leased until 115.
claim_rows_run : (claim_rows 100 115 10 sample_db).1 ≡ job_at_time 20 10 115 ∷ []
unfolding claim_rows due_jobs update_jobs update_where select sort_by insert_by any
claim_rows_run = refl

claim_exclusive_example : early_job.id ≢ late_job.id
unfolding claim_rows due_jobs update_jobs update_where select sort_by insert_by any
claim_exclusive_example =
    claim_exclusive 100 2000 950 3000 1 1 sample_db (job_at_time 20 10 2000)
      (job_at_time 21 11 3000) sample_db-IsConsistent (omega arith) (Memᴰ.head refl)
      (Memᴰ.head refl)

prune_keeps_unfinished_example :
    Memᴰ early_job (prune_expired none none (30 * day) 7 sample_db).0.jobs
prune_keeps_unfinished_example =
    (prune_keeps_unfinished none none (30 * day) 7 sample_db early_job (Memᴰ.head refl) refl).0

prune_takes_the_rest_example :
    All
      (λ j. (is_terminal j.status ≡ false) ⊎ (30 * day ≤ j.created_at + 7 * day))
      (prune_expired none none (30 * day) 7 sample_db).0.jobs
prune_takes_the_rest_example = (prune_takes_the_rest (30 * day) 7 sample_db (omega arith)).1

abbrev flushed : Db
flushed = record sample_db {
  requests = sample_db.requests ++ ingest_row empty_json captured_item ∷ [];
  jobs = sample_db.jobs ++ ingest_job_row captured_job ∷ [];
}

bulk_insert_run : bulk_insert empty_json (captured_item ∷ []) sample_db ≡ ok flushed
unfolding bulk_insert insert_all insert_request insert_job valid_jobs any
bulk_insert_run = refl

flush_all_or_nothing_example :
    ((db' : Db) × (bulk_insert empty_json (captured_item ∷ []) sample_db ≡ ok db')
      × (flush_batch empty_json no_faults (captured_item ∷ []) sample_db
          ≡ (db', notify none (captured_item ∷ []))))
    ⊎ ((e : Error) × (flush_batch empty_json no_faults (captured_item ∷ []) sample_db
          ≡ (sample_db, notify (some e) (captured_item ∷ []))))
flush_all_or_nothing_example =
    flush_all_or_nothing empty_json no_faults (captured_item ∷ []) sample_db

flush-no_faults_run :
    flush_batch empty_json no_faults (captured_item ∷ []) sample_db ≡ (flushed, (3, none) ∷ [])
unfolding flush_batch insert_all insert_request insert_job valid_jobs any notify run_chunks chunks
flush-no_faults_run = refl

told_ok : Memᴰ (3, none) (flush_batch empty_json no_faults (captured_item ∷ []) sample_db).1
unfolding notify
told_ok = rw flush-no_faults_run (Memᴰ.head refl)

flush_ack_durable_run :
    (flush_batch empty_json no_faults (captured_item ∷ []) sample_db).0.requests
    ≡ sample_db.requests ++ ingest_row empty_json captured_item ∷ []
unfolding valid_jobs
flush_ack_durable_run =
    (flush_ack_durable empty_json no_faults (captured_item ∷ []) sample_db 3 told_ok).0

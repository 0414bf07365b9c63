-- ===== src/Tests/Postgres.antt =====
-- The PostgreSQL engine at concrete inputs.
use vahak.Prelude.{◌≡◌, ◌⊎◌, some, List, refl, none, [], ◌∷◌, any}
use vahak.Store.Error.{ok, Error, driver}
use vahak.Store.Db.{Db}
use vahak.Store.Db.Integrity.{IsConsistent}
use vahak.Store.Sqlite.Flush.{flush_batch, notify}
use vahak.Store.Sqlite.Bulk.{no_faults, bulk_insert}
use vahak.Store.Postgres.{CopyFaults, copy_batch, batch_mark_delivered}
use vahak.Store.Postgres.Atomic.{plain_requests, plain_jobs, copy_all_or_nothing}
use vahak.Store.Postgres.History.{
  Call, creates_endpoint, flushes, claims, marks_delivered, prunes, run_calls,
  run_calls-IsConsistent,
}
use vahak.Store.Sqlite.History.{empty_db}
use vahak.Store.Postgres.Implements.{postgres_storage}
use vahak.Store.Postgres.Agrees.{no_copy_faults, copy_batch-flush_batch}
use vahak.Tests.Fixtures.{empty_json, sample_db, captured_item}

-- A job that is marked stays in the table.
mark_run :
    ((postgres_storage empty_json).batch_mark_delivered none 200 (20 ∷ []) sample_db).1 ≡ ok tt
unfolding batch_mark_delivered
mark_run = refl

copy_batch-flush_batch_example :
    copy_batch empty_json no_copy_faults (captured_item ∷ []) sample_db
    ≡ flush_batch empty_json no_faults (captured_item ∷ []) sample_db
unfolding bulk_insert vahak.Store.Sqlite.Flush.valid_jobs vahak.Store.Db.insert_all
    vahak.Store.Db.insert_request any vahak.Store.Db.insert_job flush_batch
    vahak.Store.Sqlite.Flush.chunks
copy_batch-flush_batch_example =
    copy_batch-flush_batch empty_json (captured_item ∷ []) sample_db
      (flush_batch empty_json no_faults (captured_item ∷ []) sample_db).0 (refl, tt) refl

abbrev refused : CopyFaults
refused = record no_copy_faults { commit_fault = some driver }

-- A batch that the driver refuses when it commits.
copy_all_or_nothing_example :
    ((mid : Db) × (db' : Db) × (plain_requests empty_json (captured_item ∷ []) sample_db ≡ ok mid)
      × (plain_jobs (captured_item ∷ []) mid ≡ ok db')
      × (copy_batch empty_json refused (captured_item ∷ []) sample_db
          ≡ (db', notify none (captured_item ∷ []))))
    ⊎ ((e : Error) × (copy_batch empty_json refused (captured_item ∷ []) sample_db
          ≡ (sample_db, notify (some e) (captured_item ∷ []))))
copy_all_or_nothing_example = copy_all_or_nothing empty_json refused (captured_item ∷ []) sample_db

-- An endpoint, a webhook with its job, a claim, a marking, and a pruning.
abbrev calls : List Call
calls =
    creates_endpoint none 1 0 "shop" "http://target" ""
    ∷ flushes no_copy_faults (captured_item ∷ [])
    ∷ claims none 300 15 10
    ∷ marks_delivered none 400 (21 ∷ [])
    ∷ prunes none none 500 7
    ∷ []

run_calls-IsConsistent_run : IsConsistent (run_calls empty_json calls empty_db)
run_calls-IsConsistent_run = run_calls-IsConsistent empty_json calls

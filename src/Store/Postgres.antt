-- ===== src/Store/Postgres.antt =====
-- internal/store/store.go: the methods of the PostgreSQL engine on jobs, PruneExpired and flushBatch;
-- Records has the other methods. No statement of another connection holds a lock here, so SKIP
-- LOCKED skips nothing.
pub mod Records
pub mod Atomic
pub mod History
pub mod Agrees
pub mod Implements
pub mod Quiet
pub mod Engine
use vahak.Prelude.{
  ℕ, ◌+◌, ◌*◌, ◌-◌, zero, suc, any, not, ◌&&◌, ltb, Bool, ◌==◌, Option, none, some, List, [], ◌∷◌,
  map, if◌then◌else◌,
}
use Prim.Native.Nat.{◌/◌}
use vahak.Models.{Uuid, Time, second, delivered, is_terminal, Status, DeliveryJob}
use vahak.Store.Error.{Cause, Error, Result, ok, err, wrapped, bare, ◌>>=◌, exec, wrap, commit}
use vahak.Store.Codec.{HeaderCodec}
use vahak.Store.Db.{
  Db, insert_request, insert_job, insert_all, update_jobs, RequestRow, delete_requests, delete_jobs,
}
use vahak.Store.Claim.{claim_rows}
use vahak.Store.Sqlite.{request_row}
use vahak.Store.Sqlite.Jobs.{day, job_row, scan_job, elem, save_delivery_job}
use vahak.Store.Sqlite.Flush.{
  IngestItem, Notice, FlushFaults, valid_jobs, ingest_row, settle, finish_tx, tx_steps,
}

-- int(leaseDuration.Seconds()), or 15 if that is not positive.
abbrev pub lease_seconds : ℕ → ℕ
lease_seconds lease = let s = lease / second in if s == 0 then 15 else s

unfoldable pub claim_pending_jobs :
    Option Cause → Time → ℕ → ℕ → Db → Db × Result Error (List DeliveryJob)
unfolding claim_rows
claim_pending_jobs none now lease limit db =
    let (db', rows) =
      claim_rows now (now + lease_seconds lease * second) (if limit == 0 then 100 else limit) db in
    (db', ok (map scan_job rows))
claim_pending_jobs (some c) now lease limit db = (db, err (wrapped "ClaimPendingJobs" c))

unfoldable pub get_pending_jobs : Option Cause → Time → Db → Db × Result Error (List DeliveryJob)
unfolding claim_pending_jobs
get_pending_jobs fault now db = claim_pending_jobs fault now (15 * second) 100 db

-- The jobs stay, as delivered ones.
unfoldable pub batch_mark_delivered :
    Option Cause → Time → List Uuid → Db → Db × Result Error (Unit {0})
batch_mark_delivered fault now [] db = (db, ok tt)
batch_mark_delivered fault now (id ∷ ids) db =
    commit db "BatchMarkDelivered"
      (exec fault (
        ok (
          update_jobs (λ j. elem j.id (id ∷ ids))
            (λ j. record j { status = delivered; last_attempt = some now; next_attempt = now })
            db)))
      tt

unfoldable pub update_job_status :
    Option Cause → Time → Uuid → Status → ℕ → Time → Db → Db × Result Error (Unit {0})
update_job_status fault now id status attempts next_attempt db =
    commit db "UpdateJobStatus"
      (exec fault (
        ok (
          update_jobs (λ j. j.id == id)
            (λ j. record j {
              status = status;
              attempts = attempts;
              last_attempt = some now;
              next_attempt = next_attempt;
            })
            db)))
      tt

-- NOT EXISTS (a job of the request whose status is none of the three).
abbrev pub has_unfinished : Db → RequestRow → Bool
has_unfinished db r = any (λ j. j.request_id == r.id && not (is_terminal j.status)) db.jobs

-- The two DELETEs, each with its own fault; no transaction joins them.
unfoldable pub prune_before : Option Cause → Option Cause → Time → Db → Db × Result Error (Unit {0})
prune_before (some c) jobs_fault cutoff db = (db, err (wrapped "PruneExpired requests" c))
prune_before none jobs_fault cutoff db =
    let db' = delete_requests (λ r. ltb r.received_at cutoff && not (has_unfinished db r)) db in
    commit db' "PruneExpired delivery_jobs"
      (exec jobs_fault
        (ok (delete_jobs (λ j. is_terminal j.status && ltb j.created_at cutoff) db')))
      tt

unfoldable pub prune_expired :
    Option Cause → Option Cause → Time → ℕ → Db → Db × Result Error (Unit {0})
unfolding prune_before
prune_expired requests_fault jobs_fault now zero db = (db, ok tt)
prune_expired requests_fault jobs_fault now (suc days) db =
    prune_before requests_fault jobs_fault (now - suc days * day) db

-- A new row gets the current time as its time of creation.
unfoldable pub save_job_at : Option Cause → Time → DeliveryJob → Db → Db × Result Error (Unit {0})
unfolding save_delivery_job
save_job_at fault now job db = save_delivery_job fault (record job { created_at = now }) db

-- One CopyFrom of the jobs, and none if there are none.
unfoldable pub copy_jobs : Option Cause → List DeliveryJob → Db → Result Cause Db
copy_jobs fault [] db = ok db
copy_jobs fault (job ∷ jobs) db = exec fault (insert_all insert_job (map job_row (job ∷ jobs)) db)

-- The refusals: of BEGIN, of each CopyFrom, and of COMMIT.
pub record CopyFaults : Type 0 where
  pub begin_fault : Option Cause
  pub request_fault : Option Cause
  pub job_fault : Option Cause
  pub commit_fault : Option Cause

module _ (json : HeaderCodec) where
  unfoldable pub copy_requests : Option Cause → List IngestItem → Db → Result Cause Db
  copy_requests fault items db =
      exec fault (insert_all insert_request (map (ingest_row json) items) db)

  unfoldable pub copy_transaction : CopyFaults → List IngestItem → Db → Result Error Db
  unfolding copy_requests copy_jobs
  copy_transaction faults items db =
      wrap "begin tx" (exec faults.begin_fault (ok db))
      >>= (λ d. wrap "copy requests" (copy_requests faults.request_fault items d))
      >>= (λ d. wrap "copy delivery_jobs" (copy_jobs faults.job_fault (valid_jobs items) d))
      >>= finish_tx faults.commit_fault

  unfoldable pub copy_batch : CopyFaults → List IngestItem → Db → Db × List Notice
  unfolding settle copy_transaction
  copy_batch faults items db = settle db items (copy_transaction faults items db)

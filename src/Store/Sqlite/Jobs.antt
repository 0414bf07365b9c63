-- ===== src/Store/Sqlite/Jobs.antt =====
-- internal/store/sqlite.go: delivery jobs and retention.
use vahak.Prelude.{
  ℕ, zero, suc, ◌+◌, ◌-◌, ◌*◌, ◌==◌, String, Bool, false, not, ◌&&◌, Option, none, some, List, [],
  ◌∷◌, map, any, has_key, ltb, if◌then◌else◌,
}
use vahak.Models.{Uuid, Time, second, minute, Status, pending, DeliveryJob, is_terminal}
use vahak.Store.Error.{Cause, Error, wrapped, Result, ok, err, exec, commit}
use vahak.Store.Db.{
  Db, JobRow, RequestRow, job_key, insert_job, delete_requests, delete_jobs, update_jobs,
}
use vahak.Store.Claim.{claim_rows}

-- The columns of a job. A job that Scan fills has zero values in the fields kept in memory.
abbrev pub job_row : DeliveryJob → JobRow
job_row job = record {
  id = job.id;
  request_id = job.request_id;
  target_url = job.target_url;
  status = job.status;
  attempts = job.attempts;
  last_attempt = job.last_attempt;
  next_attempt = job.next_attempt;
  created_at = job.created_at;
}

abbrev pub scan_job : JobRow → DeliveryJob
scan_job row = record {
  id = row.id;
  request_id = row.request_id;
  target_url = row.target_url;
  status = row.status;
  attempts = row.attempts;
  last_attempt = row.last_attempt;
  next_attempt = row.next_attempt;
  created_at = row.created_at;
  in_mem_method = "";
  in_mem_headers = none;
  in_mem_body = "";
  in_mem_transformer_script = "";
  persisted = false;
}

unfoldable pub create_delivery_job :
    Option Cause → Uuid → Time → Uuid → String → Db → Db × Result Error DeliveryJob
create_delivery_job fault id now request_id target_url db =
    let job = scan_job (record {
      id = id;
      request_id = request_id;
      target_url = target_url;
      status = pending;
      attempts = 0;
      last_attempt = none;
      next_attempt = now;
      created_at = now;
    }) in
    commit db "CreateDeliveryJob" (exec fault (insert_job (job_row job) db)) job

-- `limit <= 0` means 100.
unfoldable pub claim_pending_jobs :
    Option Cause → Time → ℕ → ℕ → Db → Db × Result Error (List DeliveryJob)
unfolding claim_rows
claim_pending_jobs none now lease_duration limit db =
    let (db', rows) =
      claim_rows now (now + lease_duration) (if limit == 0 then 100 else limit) db in
    (db', ok (map scan_job rows))
claim_pending_jobs (some c) now lease_duration limit db = (db, err (wrapped "ClaimPendingJobs" c))

unfoldable pub get_pending_jobs : Option Cause → Time → Db → Db × Result Error (List DeliveryJob)
unfolding claim_pending_jobs
get_pending_jobs fault now db = claim_pending_jobs fault now (15 * second) 100 db

unfoldable pub update_job_status :
    Option Cause → Time → Uuid → Status → ℕ → Time → Db → Db × Result Error (Unit {0})
update_job_status fault now id status attempts next_attempt db =
    commit db "UpdateJobStatus"
      (exec fault (
        ok (
          update_jobs (λ j. j.id == id)
            (λ j. record j {
              status = status;
              attempts = attempts;
              last_attempt = some now;
              next_attempt = next_attempt;
            })
            db)))
      tt

-- id IN (…).
abbrev pub elem : Uuid → List Uuid → Bool
elem id ids = any (λ i. i == id) ids

-- The jobs are deleted, and no statement is sent for an empty list.
unfoldable pub batch_mark_delivered : Option Cause → List Uuid → Db → Db × Result Error (Unit {0})
batch_mark_delivered fault [] db = (db, ok tt)
batch_mark_delivered fault (id ∷ ids) db =
    commit db "BatchMarkDelivered" (exec fault (ok (delete_jobs (λ j. elem j.id (id ∷ ids)) db))) tt

-- ON CONFLICT(id) DO UPDATE SET status, attempts, last_attempt, next_attempt.
unfoldable pub upsert_job : JobRow → Db → Result Cause Db
upsert_job row db =
    if has_key job_key row.id db.jobs
    then ok (
        update_jobs (λ j. j.id == row.id)
          (λ j. record j {
            status = row.status;
            attempts = row.attempts;
            last_attempt = row.last_attempt;
            next_attempt = row.next_attempt;
          })
          db)
    else insert_job row db

unfoldable pub save_delivery_job : Option Cause → DeliveryJob → Db → Db × Result Error (Unit {0})
save_delivery_job fault job db =
    commit db "SaveDeliveryJob" (exec fault (upsert_job (job_row job) db)) tt

abbrev pub day : ℕ
day = 24 * (60 * minute)

-- received_at < cutoff AND NOT EXISTS (a job of the request that is not terminal).
abbrev pub is_expired : Time → Db → RequestRow → Bool
is_expired cutoff db r =
    ltb r.received_at cutoff
    && not (any (λ j. j.request_id == r.id && not (is_terminal j.status)) db.jobs)

-- Two statements, each with its own fault; no transaction joins them.
unfoldable pub prune_statements :
    Option Cause → Option Cause → Time → Db → Db × Result Error (Unit {0})
prune_statements none jobs_fault cutoff db =
    let db' = delete_requests (is_expired cutoff db) db in
    commit db' "PruneExpired delivery_jobs"
      (exec jobs_fault
        (ok (delete_jobs (λ j. is_terminal j.status && ltb j.created_at cutoff) db')))
      tt
prune_statements (some c) jobs_fault cutoff db = (db, err (wrapped "PruneExpired requests" c))

unfoldable pub prune_expired :
    Option Cause → Option Cause → Time → ℕ → Db → Db × Result Error (Unit {0})
unfolding prune_statements
prune_expired requests_fault jobs_fault now zero db = (db, ok tt)
prune_expired requests_fault jobs_fault now (suc days) db =
    prune_statements requests_fault jobs_fault (now - suc days * day) db

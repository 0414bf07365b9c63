-- ===== src/Store/Postgres/Quiet.antt =====
-- The goroutines that use the PostgreSQL engine leave the endpoints alone (internal/store/store.go).
use vahak.Prelude.{ℕ, zero, suc, ◌≡◌, refl, ◌∙◌, inl, inr, Option, none, some, List, [], ◌∷◌}
use vahak.Models.{Uuid, Time, DeliveryJob}
use vahak.Store.Error.{Cause}
use vahak.Store.Codec.{HeaderCodec}
use vahak.Store.Db.{Db, update_jobs, delete_jobs, delete_requests}
use vahak.Store.Claim.{claim_rows}
use vahak.Store.Engine.{SameEndpoints}
use vahak.Store.Quiet.{commit-quiet, upsert_job-quiet}
use vahak.Store.Sqlite.Flush.{IngestItem}
use vahak.Store.Sqlite.Jobs.{save_delivery_job}
use vahak.Store.Sqlite.Bulk.{insert_all-requests, insert_all-jobs}
use vahak.Store.Postgres.Records.{get_endpoint, list_endpoints}
use vahak.Store.Postgres.{
  claim_pending_jobs, save_job_at, batch_mark_delivered, prune_expired, prune_before, CopyFaults,
  copy_batch,
}
use vahak.Store.Postgres.Atomic.{copy_all_or_nothing}
use vahak.Store.Postgres.Implements.{postgres_storage}

module _ (json : HeaderCodec) where
  same_rows :
      (db db' : Db) → db'.endpoints ≡ db.endpoints → SameEndpoints (postgres_storage json) db db'
  unfolding get_endpoint list_endpoints
  same_rows db db' e = (λ fault id. rw e refl, λ fault. rw e refl)

  pub flush-quiet :
      (faults : CopyFaults) (items : List IngestItem) (db : Db)
      → SameEndpoints (postgres_storage json) db (copy_batch json faults items db).0
  flush-quiet faults items db = same_rows db _ (elim (copy_all_or_nothing json faults items db) [
    | inr (c, e) ↦ rw e refl
    | inl (mid, db', requests, jobs, e) ↦
        rw e ((insert_all-jobs _ mid db' jobs).2 ∙ (insert_all-requests _ db mid requests).2)
  ])

  pub claim-quiet :
      (fault : Option Cause) (now : Time) (lease limit : ℕ) (db : Db)
      → SameEndpoints (postgres_storage json) db (claim_pending_jobs fault now lease limit db).0
  unfolding claim_pending_jobs claim_rows update_jobs
  claim-quiet none now lease limit db = same_rows db _ refl
  claim-quiet (some c) now lease limit db = same_rows db _ refl

  pub save-quiet :
      (fault : Option Cause) (now : Time) (job : DeliveryJob) (db : Db)
      → SameEndpoints (postgres_storage json) db (save_job_at fault now job db).0
  unfolding save_job_at save_delivery_job
  save-quiet fault now job db =
      same_rows db _
        (commit-quiet "SaveDeliveryJob" fault _ _ db (λ db' h. upsert_job-quiet _ db db' h))

  pub mark-quiet :
      (fault : Option Cause) (now : Time) (ids : List Uuid) (db : Db)
      → SameEndpoints (postgres_storage json) db (batch_mark_delivered fault now ids db).0
  unfolding batch_mark_delivered update_jobs delete_jobs
  mark-quiet fault now [] db = same_rows db _ refl
  mark-quiet none now (id ∷ ids) db = same_rows db _ refl
  mark-quiet (some c) now (id ∷ ids) db = same_rows db _ refl

  pub prune-quiet :
      (requests_fault jobs_fault : Option Cause) (now : Time) (days : ℕ) (db : Db)
      → SameEndpoints
          (postgres_storage json)
          db
          (prune_expired requests_fault jobs_fault now days db).0
  unfolding prune_expired prune_before delete_requests delete_jobs
  prune-quiet requests_fault jobs_fault now zero db = same_rows db _ refl
  prune-quiet (some c) jobs_fault now (suc days) db = same_rows db _ refl
  prune-quiet none none now (suc days) db = same_rows db _ refl
  prune-quiet none (some c) now (suc days) db = same_rows db _ refl

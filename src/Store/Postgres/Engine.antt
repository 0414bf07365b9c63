-- ===== src/Store/Postgres/Engine.antt =====
-- The PostgreSQL engine as one that loses no pending job (internal/store/store.go).
use vahak.Prelude.{
  sym, ◌+◌, arith, ◌≤◌, ◌<◌, length, ◌∙◌, subst, map, ◌++◌, Memᴰ, ℕ, zero, suc, ◌-◌, ◌*◌, String,
  ◌≡◌, refl, ap, ◌⊎◌, inl, inr, Option, none, some, List,
}
use vahak.Models.{second, pending, DeliveryJob, Uuid, Time}
use vahak.Store.Error.{ok-injective, ok, Cause}
use vahak.Store.Codec.{HeaderCodec}
use vahak.Store.Db.{JobRow, Db, update_endpoints}
use vahak.Store.Db.Integrity.{IsConsistent, insert_job-ok, insert_endpoint-ok}
use vahak.Store.Claim.{claim_rows}
use vahak.Store.Claim.Hands.{claim_rows-hands, limited}
use vahak.Store.Sqlite.Reads.{job_at}
use vahak.Store.Sqlite.Jobs.{scan_job}
use vahak.Store.Waiting.{
  Waits, IsOwner, update-Waits, append-Waits, same_jobs-Waits, commit-Waits, prune-Waits,
  delete-Waits,
}
use vahak.Store.Stored.{stored-Waits}
use vahak.Store.Engine.{Engine}
use vahak.Store.Postgres.Quiet.{flush-quiet, claim-quiet, save-quiet, mark-quiet, prune-quiet}
use vahak.Store.Sqlite.Atomic.{not-mem-notify}
use vahak.Store.Sqlite.Flush.{IngestItem}
use vahak.Store.Sqlite.Jobs.{day}
use vahak.Store.Sqlite.Bulk.{insert_all-requests, insert_all-jobs}
use vahak.Store.Postgres.Records.{
  create_endpoint, update_endpoint, delete_endpoint, create_delivery_job,
}
use vahak.Store.Postgres.{
  lease_seconds, valid_jobs, job_row, claim_pending_jobs, prune_before, prune_expired, CopyFaults,
  copy_batch,
}
use vahak.Store.Postgres.Atomic.{copy_batch-IsConsistent, copy_all_or_nothing}
use vahak.Store.Postgres.Implements.{postgres_storage}

pub claim-Waits :
    (k : Uuid) (fault : Option Cause) (now : Time) (lease limit : ℕ) (db : Db)
    → Waits k db
    → Waits k (claim_pending_jobs fault now lease limit db).0
unfolding claim_pending_jobs claim_rows
claim-Waits k none now lease limit db waiting =
    update-Waits k _ _ db (λ j. refl) (λ j. refl) waiting
claim-Waits k (some c) now lease limit db waiting = waiting

pub create_job-Waits :
    (k : Uuid) (fault : Option Cause) (id : Uuid) (now : Time) (request_id : Uuid) (url : String)
    (db : Db)
    → Waits k db
    → Waits k (create_delivery_job fault id now request_id url db).0
unfolding create_delivery_job
create_job-Waits k fault id now request_id url db waiting =
    commit-Waits k "CreateDeliveryJob" fault _ _ db waiting
      (λ db' h. append-Waits k db db' _ (ap (λ d. d.jobs) (insert_job-ok _ db h).2) waiting)

pub create_endpoint-Waits :
    (k : Uuid) (fault : Option Cause) (id : Uuid) (now : Time) (name url script : String) (db : Db)
    → Waits k db
    → Waits k (create_endpoint fault id now name url script db).0
unfolding create_endpoint
create_endpoint-Waits k fault id now name url script db waiting =
    commit-Waits k "CreateEndpoint" fault _ _ db waiting
      (λ db' h. same_jobs-Waits k db db' (ap (λ d. d.jobs) (insert_endpoint-ok _ db h).1) waiting)

pub update_endpoint-Waits :
    (k : Uuid) (fault read_fault : Option Cause) (id : Uuid) (name url script : String) (db : Db)
    → Waits k db
    → Waits k (update_endpoint fault read_fault id name url script db).0
unfolding update_endpoint update_endpoints
update_endpoint-Waits k none read_fault id name url script db waiting = waiting
update_endpoint-Waits k (some c) read_fault id name url script db waiting = waiting

pub flush-Waits :
    (json : HeaderCodec) (k : Uuid) (faults : CopyFaults) (items : List IngestItem) (db : Db)
    → Waits k db
    → Waits k (copy_batch json faults items db).0
flush-Waits json k faults items db waiting = elim (copy_all_or_nothing json faults items db) [
  | inr (c, e) ↦ rw e waiting
  | inl (mid, db', requests, jobs, e) ↦ rw e (
      append-Waits k mid db' _ (insert_all-jobs _ mid db' jobs).0
        (same_jobs-Waits k db mid (insert_all-requests _ db mid requests).1 waiting))
]

pub delete_endpoint-Waits :
    (k : Uuid) (fault : Option Cause) (id : Uuid) (db : Db)
    → Waits k db
    → Waits k (delete_endpoint fault id db).0 ⊎ IsOwner id k db
unfolding delete_endpoint
delete_endpoint-Waits k none id db waiting = delete-Waits k id db waiting
delete_endpoint-Waits k (some c) id db waiting = inl waiting

pub prune_expired-Waits :
    (k : Uuid) (requests_fault jobs_fault : Option Cause) (now : Time) (days : ℕ) (db : Db)
    → Waits k db
    → Waits k (prune_expired requests_fault jobs_fault now days db).0
unfolding prune_expired prune_before
prune_expired-Waits k requests_fault jobs_fault now zero db waiting = waiting
prune_expired-Waits k (some c) jobs_fault now (suc days) db waiting = waiting
prune_expired-Waits k none jobs_fault now (suc days) db waiting =
    prune-Waits k "PruneExpired delivery_jobs" jobs_fault (now - suc days * day) db waiting

-- Jobs that a handler is told are stored stand in the table.
flushed_jobs :
    (json : HeaderCodec) (faults : CopyFaults) (items : List IngestItem) (db : Db) (ch : ℕ)
    → Memᴰ (ch, none) (copy_batch json faults items db).1
    → (copy_batch json faults items db).0.jobs ≡ db.jobs ++ map job_row (valid_jobs items)
flushed_jobs json faults items db ch told = elim (copy_all_or_nothing json faults items db) [
  | inr (c, e) ↦ absurd (not-mem-notify c items ch (subst (λ r. Memᴰ (ch, none) r.1) e told))
  | inl (mid, db', requests, jobs, e) ↦ rw e (
      (insert_all-jobs _ mid db' jobs).0
      ∙ ap (λ l. l ++ map job_row (valid_jobs items)) (insert_all-requests _ db mid requests).1)
]

pub flush-stores :
    (json : HeaderCodec) (faults : CopyFaults) (items : List IngestItem) (item : IngestItem)
    (job : DeliveryJob) (db : Db) (ch : ℕ)
    → IsConsistent db
    → Memᴰ item items
    → item.job ≡ some job
    → job.status ≡ pending
    → Memᴰ (ch, none) (copy_batch json faults items db).1
    → Waits job.id (copy_batch json faults items db).0
flush-stores json faults items item job db ch c m of_item waiting told =
    stored-Waits job_row items item job db.jobs _ (copy_batch-IsConsistent json faults items db c)
      (flushed_jobs json faults items db ch told) m of_item waiting

pub claim-hands :
    (k : Uuid) (now : Time) (lease limit : ℕ) (jobs : List DeliveryJob) (db : Db)
    → IsConsistent db
    → (claim_pending_jobs none now lease limit db).1 ≡ ok jobs
    → length jobs < limit
    → (row : JobRow) → job_at k db ≡ some row
    → row.status ≡ pending
    → row.next_attempt ≤ now
    → (job : DeliveryJob) × Memᴰ job jobs × (job.id ≡ k) × (job.target_url ≡ row.target_url)
unfolding claim_pending_jobs
claim-hands k now lease zero jobs db c claimed few row there waiting due =
    absurd (omega (arith, few))
claim-hands k now lease (suc n) jobs db c claimed few row there waiting due =
    let same : map scan_job (claim_rows now (now + lease_seconds lease * second) (suc n) db).1
        ≡ jobs =
      ap (λ l. map scan_job (claim_rows now (now + lease_seconds lease * second) l db).1)
        (sym (limited n))
      ∙ ok-injective claimed in
    subst (λ l. (job : DeliveryJob) × Memᴰ job l × (job.id ≡ k) × (job.target_url ≡ row.target_url))
      same
      (claim_rows-hands k now (now + lease_seconds lease * second) (suc n) db c
        (subst (λ l. length l < suc n) (sym same) few) row there waiting due)

abbrev pub postgres_engine : HeaderCodec → Engine
postgres_engine json = record {
  storage = postgres_storage json;
  Faults = CopyFaults;
  flush_batch = copy_batch json;
  prune_expired = prune_expired;
  Owner = IsOwner;
  Sound = IsConsistent;
  create_endpoint-Pending = create_endpoint-Waits;
  update_endpoint-Pending = update_endpoint-Waits;
  delete_endpoint-Pending = delete_endpoint-Waits;
  create_job-Pending = create_job-Waits;
  claim-Pending = claim-Waits;
  flush-Pending = flush-Waits json;
  prune-Pending = prune_expired-Waits;
  flush-stores = flush-stores json;
  claim-hands = claim-hands;
  flush-quiet = flush-quiet json;
  claim-quiet = claim-quiet json;
  save-quiet = save-quiet json;
  mark-quiet = mark-quiet json;
  prune-quiet = prune-quiet json;
}

-- ===== src/Store/Sqlite/Engine.antt =====
-- The SQLite engine as one that loses no pending job (internal/store/sqlite.go).
use vahak.Prelude.{
  ◌∙◌, sym, subst, ◌+◌, map, arith, ◌≤◌, ◌<◌, length, Memᴰ, ℕ, zero, suc, ◌-◌, ◌*◌, String, ◌≡◌,
  refl, ap, ◌⊎◌, inl, inr, Option, none, some, List,
}
use vahak.Models.{pending, DeliveryJob, Uuid, Time}
use vahak.Store.Error.{ok, ok-injective, Cause}
use vahak.Store.Codec.{HeaderCodec}
use vahak.Store.Db.{JobRow, Db, update_endpoints}
use vahak.Store.Db.Integrity.{IsConsistent, insert_job-ok, insert_endpoint-ok}
use vahak.Store.Claim.{claim_rows}
use vahak.Store.Claim.Hands.{claim_rows-hands, limited}
use vahak.Store.Sqlite.Reads.{job_at}
use vahak.Store.Sqlite.Jobs.{scan_job}
use vahak.Store.Waiting.{
  Waits, IsOwner, update-Waits, append-Waits, same_jobs-Waits, commit-Waits, prune-Waits,
  delete-Waits,
}
use vahak.Store.Stored.{stored-Waits}
use vahak.Store.Engine.{Engine}
use vahak.Store.Sqlite.Quiet.{flush-quiet, claim-quiet, save-quiet, mark-quiet, prune-quiet}
use vahak.Store.Sqlite.{create_endpoint, update_endpoint, delete_endpoint}
use vahak.Store.Sqlite.Jobs.{
  day, create_delivery_job, claim_pending_jobs, prune_expired, prune_statements,
}
use vahak.Store.Sqlite.Flush.{ingest_job_row, IngestItem, FlushFaults, flush_batch}
use vahak.Store.Sqlite.Bulk.{bulk_insert-rows}
use vahak.Store.Sqlite.Atomic.{flush_all_or_nothing, flush_ack_durable}
use vahak.Store.Sqlite.History.{flush_batch-IsConsistent}
use vahak.Store.Sqlite.Implements.{sqlite_storage}

pub claim-Waits :
    (k : Uuid) (fault : Option Cause) (now : Time) (lease limit : ℕ) (db : Db)
    → Waits k db
    → Waits k (claim_pending_jobs fault now lease limit db).0
unfolding claim_pending_jobs claim_rows
claim-Waits k none now lease limit db waiting =
    update-Waits k _ _ db (λ j. refl) (λ j. refl) waiting
claim-Waits k (some c) now lease limit db waiting = waiting

pub create_job-Waits :
    (k : Uuid) (fault : Option Cause) (id : Uuid) (now : Time) (request_id : Uuid) (url : String)
    (db : Db)
    → Waits k db
    → Waits k (create_delivery_job fault id now request_id url db).0
unfolding create_delivery_job
create_job-Waits k fault id now request_id url db waiting =
    commit-Waits k "CreateDeliveryJob" fault _ _ db waiting
      (λ db' h. append-Waits k db db' _ (ap (λ d. d.jobs) (insert_job-ok _ db h).2) waiting)

pub create_endpoint-Waits :
    (k : Uuid) (fault : Option Cause) (id : Uuid) (now : Time) (name url script : String) (db : Db)
    → Waits k db
    → Waits k (create_endpoint fault id now name url script db).0
unfolding create_endpoint
create_endpoint-Waits k fault id now name url script db waiting =
    commit-Waits k "CreateEndpoint" fault _ _ db waiting
      (λ db' h. same_jobs-Waits k db db' (ap (λ d. d.jobs) (insert_endpoint-ok _ db h).1) waiting)

pub update_endpoint-Waits :
    (k : Uuid) (fault read_fault : Option Cause) (id : Uuid) (name url script : String) (db : Db)
    → Waits k db
    → Waits k (update_endpoint fault read_fault id name url script db).0
unfolding update_endpoint update_endpoints
update_endpoint-Waits k none read_fault id name url script db waiting = waiting
update_endpoint-Waits k (some c) read_fault id name url script db waiting = waiting

pub flush-Waits :
    (json : HeaderCodec) (k : Uuid) (faults : FlushFaults) (items : List IngestItem) (db : Db)
    → Waits k db
    → Waits k (flush_batch json faults items db).0
flush-Waits json k faults items db waiting = elim (flush_all_or_nothing json faults items db) [
  | inl (db', bulk, e) ↦
      rw e (append-Waits k db db' _ (bulk_insert-rows json items db db' bulk).1 waiting)
  | inr (c, e) ↦ rw e waiting
]

pub delete_endpoint-Waits :
    (k : Uuid) (fault : Option Cause) (id : Uuid) (db : Db)
    → Waits k db
    → Waits k (delete_endpoint fault id db).0 ⊎ IsOwner id k db
unfolding delete_endpoint
delete_endpoint-Waits k none id db waiting = delete-Waits k id db waiting
delete_endpoint-Waits k (some c) id db waiting = inl waiting

pub prune_expired-Waits :
    (k : Uuid) (requests_fault jobs_fault : Option Cause) (now : Time) (days : ℕ) (db : Db)
    → Waits k db
    → Waits k (prune_expired requests_fault jobs_fault now days db).0
unfolding prune_expired prune_statements
prune_expired-Waits k requests_fault jobs_fault now zero db waiting = waiting
prune_expired-Waits k (some c) jobs_fault now (suc days) db waiting = waiting
prune_expired-Waits k none jobs_fault now (suc days) db waiting =
    prune-Waits k "PruneExpired delivery_jobs" jobs_fault (now - suc days * day) db waiting

pub flush-stores :
    (json : HeaderCodec) (faults : FlushFaults) (items : List IngestItem) (item : IngestItem)
    (job : DeliveryJob) (db : Db) (ch : ℕ)
    → IsConsistent db
    → Memᴰ item items
    → item.job ≡ some job
    → job.status ≡ pending
    → Memᴰ (ch, none) (flush_batch json faults items db).1
    → Waits job.id (flush_batch json faults items db).0
flush-stores json faults items item job db ch c m of_item waiting told =
    stored-Waits ingest_job_row items item job db.jobs _
      (flush_batch-IsConsistent json faults items db c)
      (flush_ack_durable json faults items db ch told).1 m of_item waiting

pub claim-hands :
    (k : Uuid) (now : Time) (lease limit : ℕ) (jobs : List DeliveryJob) (db : Db)
    → IsConsistent db
    → (claim_pending_jobs none now lease limit db).1 ≡ ok jobs
    → length jobs < limit
    → (row : JobRow) → job_at k db ≡ some row
    → row.status ≡ pending
    → row.next_attempt ≤ now
    → (job : DeliveryJob) × Memᴰ job jobs × (job.id ≡ k) × (job.target_url ≡ row.target_url)
unfolding claim_pending_jobs
claim-hands k now lease zero jobs db c claimed few row there waiting due =
    absurd (omega (arith, few))
claim-hands k now lease (suc n) jobs db c claimed few row there waiting due =
    let same : map scan_job (claim_rows now (now + lease) (suc n) db).1 ≡ jobs =
      ap (λ l. map scan_job (claim_rows now (now + lease) l db).1) (sym (limited n))
      ∙ ok-injective claimed in
    subst (λ l. (job : DeliveryJob) × Memᴰ job l × (job.id ≡ k) × (job.target_url ≡ row.target_url))
      same
      (claim_rows-hands k now (now + lease) (suc n) db c
        (subst (λ l. length l < suc n) (sym same) few) row there waiting due)

abbrev pub sqlite_engine : HeaderCodec → Engine
sqlite_engine json = record {
  storage = sqlite_storage json;
  Faults = FlushFaults;
  flush_batch = flush_batch json;
  prune_expired = prune_expired;
  Owner = IsOwner;
  Sound = IsConsistent;
  create_endpoint-Pending = create_endpoint-Waits;
  update_endpoint-Pending = update_endpoint-Waits;
  delete_endpoint-Pending = delete_endpoint-Waits;
  create_job-Pending = create_job-Waits;
  claim-Pending = claim-Waits;
  flush-Pending = flush-Waits json;
  prune-Pending = prune_expired-Waits;
  flush-stores = flush-stores json;
  claim-hands = claim-hands;
  flush-quiet = flush-quiet json;
  claim-quiet = claim-quiet json;
  save-quiet = save-quiet json;
  mark-quiet = mark-quiet json;
  prune-quiet = prune-quiet json;
}

-- ===== src/Store/Sqlite/History.antt =====
-- Every history of the SQLite engine: its methods in any order, with any faults
-- (internal/store/sqlite.go).
use vahak.Prelude.{
  ℕ, zero, suc, subst, ◌+◌, Option-cases, ◌≡◌, refl, String, ◌==◌, Option, none, some, List, [],
  ◌∷◌, Bool-cases, inl, inr, has_key,
}
use vahak.Models.{Uuid, Time, Status, Request, DeliveryJob}
use vahak.Store.Error.{Cause, Result, ok, err, exec, commit, >>=-eq-ok}
use vahak.Store.Codec.{HeaderCodec}
use vahak.Store.Db.{Db, JobRow, job_key, insert_request, insert_job}
use vahak.Store.Db.Integrity.{
  IsConsistent, insert_endpoint-IsConsistent, insert_request-IsConsistent, insert_job-IsConsistent,
  delete_requests-IsConsistent, delete_endpoints-IsConsistent, delete_jobs-IsConsistent,
  update_jobs-IsConsistent, update_endpoints-IsConsistent, insert_all-keeps,
}
use vahak.Store.Claim.Lease.{claim_rows-IsConsistent}
use vahak.Store.Sqlite.{
  create_endpoint, update_endpoint, delete_endpoint, save_request, request_row,
}
use vahak.Store.Sqlite.Jobs.{
  create_delivery_job, claim_pending_jobs, update_job_status, batch_mark_delivered, upsert_job,
  save_delivery_job, job_row, is_expired, prune_statements, prune_expired,
}
use vahak.Store.Sqlite.Flush.{IngestItem, FlushFaults, flush_batch}
use vahak.Store.Sqlite.Bulk.{bulk_insert, bulk_requests}
use vahak.Store.Sqlite.Chunks.{bulk_jobs}
use vahak.Store.Sqlite.Atomic.{flush_all_or_nothing}

-- A call of a method that writes, with its arguments.
pub data Call : Type 0 where
  creates_endpoint : Option Cause → Uuid → Time → String → String → String → Call
  updates_endpoint : Option Cause → Option Cause → Uuid → String → String → String → Call
  deletes_endpoint : Option Cause → Uuid → Call
  saves_request : Option Cause → Request → Call
  creates_job : Option Cause → Uuid → Time → Uuid → String → Call
  claims : Option Cause → Time → ℕ → ℕ → Call
  updates_status : Option Cause → Time → Uuid → Status → ℕ → Time → Call
  marks_delivered : Option Cause → List Uuid → Call
  saves_job : Option Cause → DeliveryJob → Call
  prunes : Option Cause → Option Cause → Time → ℕ → Call
  flushes : FlushFaults → List IngestItem → Call

abbrev pub empty_db : Db
empty_db = record { endpoints = []; requests = []; jobs = [] }

pub empty_db-IsConsistent : IsConsistent empty_db
empty_db-IsConsistent = record {
  endpoint_ids = tt;
  request_ids = tt;
  job_ids = tt;
  request_endpoints = tt;
  job_requests = tt;
}

pub commit-keeps :
    (P : Db → Type 0) (op : String) (fault : Option Cause) {A : Type 0} (r : Result Cause Db)
    (a : A) (db : Db)
    → P db
    → ((db' : Db) → r ≡ ok db' → P db')
    → P (commit db op (exec fault r) a).0
commit-keeps P op none (ok db') a db before after = after db' refl
commit-keeps P op none (err c) a db before after = before
commit-keeps P op (some c) r a db before after = before

pub ok-injective : {d e : Db} → ◌≡◌ {A = Result Cause Db} (ok d) (ok e) → d ≡ e
ok-injective h = cc

pub upsert_job-IsConsistent :
    (row : JobRow) (db : Db) {db' : Db}
    → IsConsistent db
    → upsert_job row db ≡ ok db'
    → IsConsistent db'
unfolding upsert_job
upsert_job-IsConsistent row db c h = elim (Bool-cases (has_key job_key row.id db.jobs)) [
  | inl known ↦
      subst IsConsistent (ok-injective (rw (known, upsert_job) at h))
        (update_jobs-IsConsistent (λ j. j.id == row.id) _ db (λ j. refl) (λ j. refl) c)
  | inr fresh ↦ insert_job-IsConsistent row db c (rw (fresh, upsert_job) at h)
]

prune_statements-IsConsistent :
    (requests_fault jobs_fault : Option Cause) (cutoff : Time) (db : Db)
    → IsConsistent db
    → IsConsistent (prune_statements requests_fault jobs_fault cutoff db).0
unfolding prune_statements
prune_statements-IsConsistent (some e) jobs_fault cutoff db c = c
prune_statements-IsConsistent none jobs_fault cutoff db c =
    let c' = delete_requests-IsConsistent (is_expired cutoff db) db c in
    commit-keeps IsConsistent "PruneExpired delivery_jobs" jobs_fault _ tt _ c'
      (λ db' h. subst IsConsistent (ok-injective h) (delete_jobs-IsConsistent _ _ c'))

module _ (json : HeaderCodec) where
  bulk_insert-IsConsistent :
      (items : List IngestItem) (db : Db) {db' : Db}
      → IsConsistent db
      → bulk_insert json items db ≡ ok db'
      → IsConsistent db'
  unfolding bulk_insert bulk_requests bulk_jobs
  bulk_insert-IsConsistent items db c h =
      let (mid, requests, jobs) = >>=-eq-ok (bulk_requests json items db) (bulk_jobs items) h in
      insert_all-keeps IsConsistent insert_job _ mid (λ row d e k. insert_job-IsConsistent row d k)
        (insert_all-keeps IsConsistent insert_request _ db
          (λ row d e k. insert_request-IsConsistent row d k) c requests)
        jobs

  pub flush_batch-IsConsistent :
      (faults : FlushFaults) (items : List IngestItem) (db : Db)
      → IsConsistent db
      → IsConsistent (flush_batch json faults items db).0
  flush_batch-IsConsistent faults items db c = elim (flush_all_or_nothing json faults items db) [
    | inl (db', bulk, e) ↦ rw e (bulk_insert-IsConsistent items db c bulk)
    | inr (x, e) ↦ rw e c
  ]

  save_request-IsConsistent :
      (fault : Option Cause) (r : Request) (db : Db)
      → IsConsistent db
      → IsConsistent (save_request json fault r db).0
  unfolding save_request
  save_request-IsConsistent fault r db c = elim (Option-cases (json.marshal r.headers)) [
    | inl unwritten ↦ rw (unwritten, save_request) c
    | inr (headers, written) ↦
        rw (written, save_request)
          (commit-keeps IsConsistent "SaveRequest" fault _ tt db c
            (λ db' h. insert_request-IsConsistent (request_row json r headers) db c h))
  ]

  unfoldable pub after_call : Call → Db → Db
  after_call (creates_endpoint fault id now name url script) db =
      (create_endpoint fault id now name url script db).0
  after_call (updates_endpoint fault get_fault id name url script) db =
      (update_endpoint fault get_fault id name url script db).0
  after_call (deletes_endpoint fault id) db = (delete_endpoint fault id db).0
  after_call (saves_request fault r) db = (save_request json fault r db).0
  after_call (creates_job fault id now request_id url) db =
      (create_delivery_job fault id now request_id url db).0
  after_call (claims fault now lease limit) db = (claim_pending_jobs fault now lease limit db).0
  after_call (updates_status fault now id status attempts next_attempt) db =
      (update_job_status fault now id status attempts next_attempt db).0
  after_call (marks_delivered fault ids) db = (batch_mark_delivered fault ids db).0
  after_call (saves_job fault job) db = (save_delivery_job fault job db).0
  after_call (prunes requests_fault jobs_fault now days) db =
      (prune_expired requests_fault jobs_fault now days db).0
  after_call (flushes faults items) db = (flush_batch json faults items db).0

  unfoldable pub after_calls : List Call → Db → Db
  after_calls [] db = db
  after_calls (call ∷ calls) db = after_calls calls (after_call call db)

  after_call-IsConsistent :
      (call : Call) (db : Db) → IsConsistent db → IsConsistent (after_call call db)
  unfolding after_call create_endpoint update_endpoint delete_endpoint create_delivery_job
      claim_pending_jobs update_job_status batch_mark_delivered save_delivery_job prune_expired
  after_call-IsConsistent (creates_endpoint fault id now name url script) db c =
      commit-keeps IsConsistent _ fault _ _ db c (λ db' h. insert_endpoint-IsConsistent _ db c h)
  after_call-IsConsistent (updates_endpoint none get_fault id name url script) db c =
      update_endpoints-IsConsistent _ _ db (λ e. refl) c
  after_call-IsConsistent (updates_endpoint (some x) get_fault id name url script) db c = c
  after_call-IsConsistent (deletes_endpoint fault id) db c =
      commit-keeps IsConsistent _ fault _ tt db c
        (λ db' h. subst IsConsistent (ok-injective h) (delete_endpoints-IsConsistent _ db c))
  after_call-IsConsistent (saves_request fault r) db c = save_request-IsConsistent fault r db c
  after_call-IsConsistent (creates_job fault id now request_id url) db c =
      commit-keeps IsConsistent _ fault _ _ db c (λ db' h. insert_job-IsConsistent _ db c h)
  after_call-IsConsistent (claims none now lease limit) db c =
      claim_rows-IsConsistent now (now + lease) _ db c
  after_call-IsConsistent (claims (some x) now lease limit) db c = c
  after_call-IsConsistent (updates_status fault now id status attempts next_attempt) db c =
      commit-keeps IsConsistent _ fault _ tt db c (λ db' h.
        subst IsConsistent (ok-injective h)
          (update_jobs-IsConsistent _ _ db (λ j. refl) (λ j. refl) c))
  after_call-IsConsistent (marks_delivered fault []) db c = c
  after_call-IsConsistent (marks_delivered fault (id ∷ ids)) db c =
      commit-keeps IsConsistent _ fault _ tt db c
        (λ db' h. subst IsConsistent (ok-injective h) (delete_jobs-IsConsistent _ db c))
  after_call-IsConsistent (saves_job fault job) db c =
      commit-keeps IsConsistent _ fault _ tt db c
        (λ db' h. upsert_job-IsConsistent (job_row job) db c h)
  after_call-IsConsistent (prunes requests_fault jobs_fault now zero) db c = c
  after_call-IsConsistent (prunes requests_fault jobs_fault now (suc days)) db c =
      prune_statements-IsConsistent requests_fault jobs_fault _ db c
  after_call-IsConsistent (flushes faults items) db c = flush_batch-IsConsistent faults items db c

  after_calls-keeps :
      (calls : List Call) (db : Db) → IsConsistent db → IsConsistent (after_calls calls db)
  unfolding after_calls
  after_calls-keeps [] db c = c
  after_calls-keeps (call ∷ calls) db c =
      after_calls-keeps calls (after_call call db) (after_call-IsConsistent call db c)

  -- Whatever the engine's methods are called with, in whatever order, and whatever the driver
  -- refuses, the tables that started out empty have unique identifiers, every request has its
  -- endpoint, and every job has its request.
  pub after_calls-IsConsistent : (calls : List Call) → IsConsistent (after_calls calls empty_db)
  after_calls-IsConsistent calls = after_calls-keeps calls empty_db (record {
    endpoint_ids = tt;
    request_ids = tt;
    job_ids = tt;
    request_endpoints = tt;
    job_requests = tt;
  })

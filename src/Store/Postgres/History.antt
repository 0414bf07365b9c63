-- ===== src/Store/Postgres/History.antt =====
-- Every history of the PostgreSQL engine (internal/store/store.go).
use vahak.Prelude.{
  Bool, Option-cases, ℕ, zero, suc, ◌≡◌, refl, subst, inl, inr, String, Option, none, some, List,
  [], ◌∷◌,
}
use vahak.Models.{Uuid, Time, Status, Request, DeliveryJob}
use vahak.Store.Error.{Cause, ok, exec, commit}
use vahak.Store.Codec.{HeaderCodec}
use vahak.Store.Db.{update_jobs, JobRow, Db}
use vahak.Store.Db.Integrity.{
  IsConsistent, insert_endpoint-IsConsistent, insert_request-IsConsistent, insert_job-IsConsistent,
  delete_requests-IsConsistent, delete_endpoints-IsConsistent, delete_jobs-IsConsistent,
  update_jobs-IsConsistent, update_endpoints-IsConsistent,
}
use vahak.Store.Claim.Lease.{claim_rows-IsConsistent}
use vahak.Store.Sqlite.{request_row}
use vahak.Store.Sqlite.Jobs.{job_row, save_delivery_job}
use vahak.Store.Sqlite.Flush.{IngestItem}
use vahak.Store.Sqlite.History.{
  empty_db-IsConsistent, empty_db, commit-keeps, ok-injective, upsert_job-IsConsistent,
}
use vahak.Store.Postgres.Records.{
  create_endpoint, update_endpoint, delete_endpoint, save_request, create_delivery_job,
}
use vahak.Store.Postgres.{
  claim_pending_jobs, batch_mark_delivered, update_job_status, prune_before, prune_expired,
  save_job_at, CopyFaults, copy_batch,
}
use vahak.Store.Postgres.Atomic.{copy_batch-IsConsistent}

-- A call of a method that writes, with its arguments.
pub data Call : Type 0 where
  creates_endpoint : Option Cause → Uuid → Time → String → String → String → Call
  updates_endpoint : Option Cause → Option Cause → Uuid → String → String → String → Call
  deletes_endpoint : Option Cause → Uuid → Call
  saves_request : Option Cause → Request → Call
  creates_job : Option Cause → Uuid → Time → Uuid → String → Call
  claims : Option Cause → Time → ℕ → ℕ → Call
  updates_status : Option Cause → Time → Uuid → Status → ℕ → Time → Call
  marks_delivered : Option Cause → Time → List Uuid → Call
  saves_job : Option Cause → Time → DeliveryJob → Call
  prunes : Option Cause → Option Cause → Time → ℕ → Call
  flushes : CopyFaults → List IngestItem → Call

prune_before-IsConsistent :
    (requests_fault jobs_fault : Option Cause) (cutoff : Time) (db : Db)
    → IsConsistent db
    → IsConsistent (prune_before requests_fault jobs_fault cutoff db).0
unfolding prune_before
prune_before-IsConsistent (some e) jobs_fault cutoff db c = c
prune_before-IsConsistent none jobs_fault cutoff db c =
    let c' = delete_requests-IsConsistent _ db c in
    commit-keeps IsConsistent "PruneExpired delivery_jobs" jobs_fault _ tt _ c'
      (λ db' h. subst IsConsistent (ok-injective h) (delete_jobs-IsConsistent _ _ c'))

module _ (json : HeaderCodec) where
  save_request-IsConsistent :
      (fault : Option Cause) (r : Request) (db : Db)
      → IsConsistent db
      → IsConsistent (save_request json fault r db).0
  unfolding save_request
  save_request-IsConsistent fault r db c = elim (Option-cases (json.marshal r.headers)) [
    | inl unwritten ↦ rw (unwritten, save_request) c
    | inr (headers, written) ↦
        rw (written, save_request)
          (commit-keeps IsConsistent "SaveRequest" fault _ tt db c
            (λ db' h. insert_request-IsConsistent (request_row json r headers) db c h))
  ]

  unfoldable pub after_call : Call → Db → Db
  after_call (creates_endpoint fault id now name url script) db =
      (create_endpoint fault id now name url script db).0
  after_call (updates_endpoint fault get_fault id name url script) db =
      (update_endpoint fault get_fault id name url script db).0
  after_call (deletes_endpoint fault id) db = (delete_endpoint fault id db).0
  after_call (saves_request fault r) db = (save_request json fault r db).0
  after_call (creates_job fault id now request_id url) db =
      (create_delivery_job fault id now request_id url db).0
  after_call (claims fault now lease limit) db = (claim_pending_jobs fault now lease limit db).0
  after_call (updates_status fault now id status attempts next_attempt) db =
      (update_job_status fault now id status attempts next_attempt db).0
  after_call (marks_delivered fault now ids) db = (batch_mark_delivered fault now ids db).0
  after_call (saves_job fault now job) db = (save_job_at fault now job db).0
  after_call (prunes requests_fault jobs_fault now days) db =
      (prune_expired requests_fault jobs_fault now days db).0
  after_call (flushes faults items) db = (copy_batch json faults items db).0

  updated_jobs :
      (op : String) (fault : Option Cause) (p : JobRow → Bool) (f : JobRow → JobRow) (db : Db)
      → ((j : JobRow) → (f j).id ≡ j.id)
      → ((j : JobRow) → (f j).request_id ≡ j.request_id)
      → IsConsistent db
      → IsConsistent (commit {A = Unit {0}} db op (exec fault (ok (update_jobs p f db))) tt).0
  updated_jobs op fault p f db ids requests c =
      commit-keeps IsConsistent op fault _ tt db c (λ db' h.
        subst IsConsistent (ok-injective h) (update_jobs-IsConsistent p f db ids requests c))

  call_keeps : (call : Call) (db : Db) → IsConsistent db → IsConsistent (after_call call db)
  unfolding after_call create_endpoint update_endpoint delete_endpoint create_delivery_job
      claim_pending_jobs update_job_status batch_mark_delivered save_job_at save_delivery_job
      prune_expired
  call_keeps (creates_endpoint fault id now name url script) db c =
      commit-keeps IsConsistent _ fault _ _ db c (λ db' h. insert_endpoint-IsConsistent _ db c h)
  call_keeps (updates_endpoint none get_fault id name url script) db c =
      update_endpoints-IsConsistent _ _ db (λ e. refl) c
  call_keeps (updates_endpoint (some x) get_fault id name url script) db c = c
  call_keeps (deletes_endpoint fault id) db c =
      commit-keeps IsConsistent _ fault _ tt db c
        (λ db' h. subst IsConsistent (ok-injective h) (delete_endpoints-IsConsistent _ db c))
  call_keeps (saves_request fault r) db c = save_request-IsConsistent fault r db c
  call_keeps (creates_job fault id now request_id url) db c =
      commit-keeps IsConsistent _ fault _ _ db c (λ db' h. insert_job-IsConsistent _ db c h)
  call_keeps (claims none now lease limit) db c = claim_rows-IsConsistent now _ _ db c
  call_keeps (claims (some x) now lease limit) db c = c
  call_keeps (updates_status fault now id status attempts next_attempt) db c =
      updated_jobs _ fault _ _ db (λ j. refl) (λ j. refl) c
  call_keeps (marks_delivered fault now []) db c = c
  call_keeps (marks_delivered fault now (id ∷ ids)) db c =
      updated_jobs _ fault _ _ db (λ j. refl) (λ j. refl) c
  call_keeps (saves_job fault now job) db c =
      commit-keeps IsConsistent _ fault _ tt db c
        (λ db' h. upsert_job-IsConsistent (job_row (record job { created_at = now })) db c h)
  call_keeps (prunes requests_fault jobs_fault now zero) db c = c
  call_keeps (prunes requests_fault jobs_fault now (suc days)) db c =
      prune_before-IsConsistent requests_fault jobs_fault _ db c
  call_keeps (flushes faults items) db c = copy_batch-IsConsistent json faults items db c

  unfoldable pub run_calls : List Call → Db → Db
  run_calls [] db = db
  run_calls (call ∷ calls) db = run_calls calls (after_call call db)

  run_calls_from :
      (calls : List Call) (db : Db) → IsConsistent db → IsConsistent (run_calls calls db)
  unfolding run_calls
  run_calls_from [] db c = c
  run_calls_from (call ∷ calls) db c =
      run_calls_from calls (after_call call db) (call_keeps call db c)

  -- The PostgreSQL engine keeps its tables consistent as well: from empty tables on, whatever its
  -- methods are called with, in whatever order, and whatever the driver refuses, identifiers are
  -- unique, every request has its endpoint, and every job has its request.
  pub run_calls-IsConsistent : (calls : List Call) → IsConsistent (run_calls calls empty_db)
  run_calls-IsConsistent calls = run_calls_from calls empty_db empty_db-IsConsistent

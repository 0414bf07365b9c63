-- ===== src/Store/Sqlite/Implements.antt =====
-- The SQLite engine keeps what internal/store/interface.go promises the forwarder.
use vahak.Prelude.{
  ap, is_some, none, any, ◌==◌, ==_iff, ◌≡◌, ◌≢◌, refl, ◌∙◌, inl, inr, true, false, Option, some,
  List, [], ◌∷◌, ◌++◌, arith, any, update_where, has_key, Bool-cases, Option-cases,
}
use mathlib.Core.Bool.{false≢true}
use vahak.Models.{delivered, Uuid, Time, Request, DeliveryJob}
use vahak.Store.Error.{Cause, Error, ok, err, exec, exec-ok, wrap-ok, >>=-eq-ok, Result-cases}
use vahak.Store.Codec.{HeaderCodec}
use vahak.Store.Db.{
  insert_job, request_key, delete_jobs, Db, JobRow, RequestRow, job_key, update_jobs,
}
use vahak.Store.Db.Integrity.{insert_job-ok}
use vahak.Store.Storage.{Storage, IsSaved}
use vahak.Store.Sqlite.{
  create_endpoint, list_endpoints, update_endpoint, delete_endpoint, get_requests_by_endpoint,
  get_request, get_endpoint, scan_request,
}
use vahak.Store.Sqlite.Jobs.{
  create_delivery_job, job_row, upsert_job, save_delivery_job, batch_mark_delivered,
  claim_pending_jobs,
}
use vahak.Store.Sqlite.Reads.{
  job_at, find-update_key, find-update_self, find-append_self, find-append_other, one_row-select,
  find-delete_ids, find-deleted, find-none,
}

-- The columns that ON CONFLICT writes.
abbrev written : DeliveryJob → JobRow → JobRow
written job j = record j {
  status = job.status;
  attempts = job.attempts;
  last_attempt = job.last_attempt;
  next_attempt = job.next_attempt;
}

upsert-known :
    (job : DeliveryJob) (db : Db)
    → has_key job_key job.id db.jobs ≡ true
    → upsert_job (job_row job) db
      ≡ ok (record db { jobs = update_where (λ j. j.id == job.id) (written job) db.jobs })
unfolding upsert_job update_jobs
upsert-known job db h = rw h

upsert-fresh :
    (job : DeliveryJob) (db db' : Db)
    → has_key job_key job.id db.jobs ≡ false
    → upsert_job (job_row job) db ≡ ok db'
    → db' ≡ record db { jobs = db.jobs ++ job_row job ∷ [] }
unfolding upsert_job
upsert-fresh job db db' h e = (insert_job-ok (job_row job) db (rw h at e)).2

-- What an upsert that succeeds leaves for a reader of the job, and of any other job.
upsert-reads :
    (job : DeliveryJob) (db db' : Db)
    → upsert_job (job_row job) db ≡ ok db'
    → ((row : JobRow) × (job_at job.id db' ≡ some row) × IsSaved job row)
      × ((k : Uuid) → k ≢ job.id → job_at k db' ≡ job_at k db)
upsert-reads job db db' e = elim (Bool-cases (has_key job_key job.id db.jobs)) [
  | inl known ↦
      let (x, found) = find-update_self job.id (written job) db.jobs (λ j. refl) known in
      let same : db'
          ≡ record db { jobs = update_where (λ j. j.id == job.id) (written job) db.jobs } =
        cc (upsert-known job db known) in
      rw same (
        (written job x, found, ground arith),
        λ k ne. find-update_key k job.id (written job) db.jobs (λ j. refl) ne,
      )
  | inr fresh ↦ rw (upsert-fresh job db db' fresh e) (
    (job_row job, find-append_self db.jobs (job_row job) fresh, ground arith),
    λ k ne. find-append_other k db.jobs (job_row job) ne,
  )
]

pub mark-other :
    (fault : Option Cause) (now : Time) (ids : List Uuid) (db : Db) (k : Uuid)
    → any (λ i. i == k) ids ≡ false
    → job_at k (batch_mark_delivered fault ids db).0 ≡ job_at k db
unfolding batch_mark_delivered delete_jobs
mark-other fault now [] db k h = refl
mark-other none now (id ∷ ids) db k h = find-delete_ids k (id ∷ ids) db.jobs h
mark-other (some c) now (id ∷ ids) db k h = refl

pub mark-done :
    (now : Time) (ids : List Uuid) (db : Db) (k : Uuid) (row : JobRow)
    → any (λ i. i == k) ids ≡ true
    → job_at k (batch_mark_delivered none ids db).0 ≡ some row
    → row.status ≡ delivered
unfolding batch_mark_delivered delete_jobs any
mark-done now [] db k row h there = absurd (false≢true h)
mark-done now (id ∷ ids) db k row h there =
    let gone = find-deleted k (id ∷ ids) db.jobs h in absurd (cc (gone, there))

pub save-ok :
    (fault : Option Cause) (now : Time) (job : DeliveryJob) (db : Db)
    → (save_delivery_job fault job db).1 ≡ ok tt
    → (row : JobRow) × (job_at job.id (save_delivery_job fault job db).0 ≡ some row)
      × IsSaved job row
unfolding save_delivery_job
save-ok fault now job db h = elim (Result-cases (exec fault (upsert_job (job_row job) db))) [
  | inl (db', e) ↦ rw e (upsert-reads job db db' (exec-ok fault _ e)).0
  | inr (c, e) ↦ absurd (ground arith)
]

pub save-err :
    (fault : Option Cause) (now : Time) (job : DeliveryJob) (db : Db) (e : Error)
    → (save_delivery_job fault job db).1 ≡ err e
    → (save_delivery_job fault job db).0 ≡ db
unfolding save_delivery_job
save-err fault now job db e h = elim (Result-cases (exec fault (upsert_job (job_row job) db))) [
  | inl (db', f) ↦ absurd (ground arith)
  | inr (c, f) ↦ rw f
]

pub save-other :
    (fault : Option Cause) (now : Time) (job : DeliveryJob) (db : Db) (k : Uuid)
    → k ≢ job.id
    → job_at k (save_delivery_job fault job db).0 ≡ job_at k db
unfolding save_delivery_job
save-other fault now job db k ne = elim (Result-cases (exec fault (upsert_job (job_row job) db))) [
  | inl (db', e) ↦ rw e ((upsert-reads job db db' (exec-ok fault _ e)).1 k ne)
  | inr (c, e) ↦ rw e
]

pub save-fresh :
    (now : Time) (job : DeliveryJob) (db : Db)
    → job_at job.id db ≡ none
    → is_some (job_at job.id (save_delivery_job none job db).0)
      ≡ has_key request_key job.request_id db.requests
unfolding save_delivery_job upsert_job insert_job
save-fresh now job db absent =
    let fresh = find-none job.id db.jobs absent in
    elim (Bool-cases (has_key request_key job.request_id db.requests)) [
      | inl known ↦ rw (fresh, known) (ap is_some (find-append_self db.jobs (job_row job) fresh))
      | inr unknown ↦ rw (fresh, unknown) (ap is_some absent)
    ]

module _ (json : HeaderCodec) where
  scan_request-id : (row : RequestRow) (r : Request) → scan_request json row ≡ ok r → r.id ≡ row.id
  scan_request-id row r h = elim (Option-cases (json.unmarshal row.headers)) [
    | inl bad ↦ absurd (cc (rw bad at h))
    | inr (headers, good) ↦ ground (arith, rw good at h)
  ]

  pub get_request-id :
      (fault : Option Cause) (id : Uuid) (db : Db) (r : Request)
      → get_request json fault id db ≡ ok r
      → r.id ≡ id
  unfolding get_request
  get_request-id fault id db r h =
      let (row, found, scanned) = >>=-eq-ok _ _ h in
      let hit : (row.id == id) ≡ true =
        one_row-select (λ (x : RequestRow). x.id == id) db.requests row
          (exec-ok fault _ (wrap-ok "GetRequest" _ found)) in
      scan_request-id row r (wrap-ok "GetRequest unmarshal" (scan_request json row) scanned)
      ∙ (==_iff row.id id).0 hit

  abbrev pub sqlite_storage : Storage
  sqlite_storage = record {
    State = Db;
    get_request = get_request json;
    get_endpoint = get_endpoint;
    create_endpoint = create_endpoint;
    list_endpoints = list_endpoints;
    update_endpoint = update_endpoint;
    delete_endpoint = delete_endpoint;
    get_requests_by_endpoint = get_requests_by_endpoint json;
    create_delivery_job = create_delivery_job;
    claim_pending_jobs = claim_pending_jobs;
    save_delivery_job = λ fault _. save_delivery_job fault;
    batch_mark_delivered = λ fault _. batch_mark_delivered fault;
    job_at = job_at;
    has_request = λ id db. has_key request_key id db.requests;
    get_request-id = get_request-id;
    save-ok = save-ok;
    save-err = save-err;
    save-other = save-other;
    mark-other = mark-other;
    save-fresh = save-fresh;
    mark-done = mark-done;
  }

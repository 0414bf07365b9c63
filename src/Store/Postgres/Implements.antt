-- ===== src/Store/Postgres/Implements.antt =====
-- The PostgreSQL engine keeps the Storage interface (internal/store/store.go).
use vahak.Prelude.{
  true, is_some, has_key, refl, arith, ==_iff, sym, subst, [], ◌∷◌, List, none, some, inl, inr,
  Bool-cases, false, ◌==◌, any, update_where, find, ◌≡◌, ◌≢◌, Option,
}
use mathlib.Core.Bool.{false≢true}
use vahak.Models.{delivered, Request, Uuid, Time, DeliveryJob}
use vahak.Store.Error.{Cause, Error, ok, err}
use vahak.Store.Codec.{HeaderCodec}
use vahak.Store.Db.{request_key, update_jobs, Db, JobRow}
use vahak.Store.Storage.{Storage, IsSaved}
use vahak.Store.Sqlite.Jobs.{elem}
use vahak.Store.Postgres.Records.{
  create_endpoint, get_endpoint, update_endpoint, list_endpoints, delete_endpoint, get_request,
  get_requests_by_endpoint, create_delivery_job,
}
use vahak.Store.Sqlite.Implements.{
  save-fresh, save-ok, save-err, save-other, get_request-id as read-id,
}
use vahak.Store.Sqlite.Reads.{job_at}
use vahak.Store.Postgres.{claim_pending_jobs, batch_mark_delivered, save_job_at}

find-update_ids :
    (k : Uuid) (ids : List Uuid) (f : JobRow → JobRow) (rows : List JobRow)
    → ((j : JobRow) → (f j).id ≡ j.id)
    → any (λ i. i == k) ids ≡ false
    → find (λ j. j.id == k) (update_where (λ j. elem j.id ids) f rows) ≡ find (λ j. j.id == k) rows
unfolding find update_where
find-update_ids k ids f [] e h = refl
find-update_ids k ids f (x ∷ rows) e h = elim (Bool-cases (x.id == k)) [
  | inl same ↦
      let kept : elem x.id ids ≡ false =
        subst (λ i. elem i ids ≡ false) (sym ((==_iff x.id k).0 same)) h in
      rw (kept, same) refl
  | inr other ↦ ground (arith, e x, find-update_ids k ids f rows e h)
]

pub save_job_at-ok :
    (fault : Option Cause) (now : Time) (job : DeliveryJob) (db : Db)
    → (save_job_at fault now job db).1 ≡ ok tt
    → (row : JobRow) × (job_at job.id (save_job_at fault now job db).0 ≡ some row) × IsSaved job row
unfolding save_job_at
save_job_at-ok fault now job db h =
    let (row, there, saved) = save-ok fault now (record job { created_at = now }) db h in
    (
      row,
      there,
      record {
        saved_status = saved.saved_status;
        saved_attempts = saved.saved_attempts;
        saved_last = saved.saved_last;
        saved_next = saved.saved_next;
      },
    )

pub save_job_at-err :
    (fault : Option Cause) (now : Time) (job : DeliveryJob) (db : Db) (e : Error)
    → (save_job_at fault now job db).1 ≡ err e
    → (save_job_at fault now job db).0 ≡ db
unfolding save_job_at
save_job_at-err fault now job db e h = save-err fault now (record job { created_at = now }) db e h

pub save_job_at-other :
    (fault : Option Cause) (now : Time) (job : DeliveryJob) (db : Db) (k : Uuid)
    → k ≢ job.id
    → job_at k (save_job_at fault now job db).0 ≡ job_at k db
unfolding save_job_at
save_job_at-other fault now job db k h =
    save-other fault now (record job { created_at = now }) db k h

pub save_job_at-fresh :
    (now : Time) (job : DeliveryJob) (db : Db)
    → job_at job.id db ≡ none
    → is_some (job_at job.id (save_job_at none now job db).0)
      ≡ has_key request_key job.request_id db.requests
unfolding save_job_at
save_job_at-fresh now job db absent = save-fresh now (record job { created_at = now }) db absent

pub mark_delivered-other :
    (fault : Option Cause) (now : Time) (ids : List Uuid) (db : Db) (k : Uuid)
    → any (λ i. i == k) ids ≡ false
    → job_at k (batch_mark_delivered fault now ids db).0 ≡ job_at k db
unfolding batch_mark_delivered update_jobs
mark_delivered-other fault now [] db k h = refl
mark_delivered-other none now (id ∷ ids) db k h =
    find-update_ids k (id ∷ ids) _ db.jobs (λ j. refl) h
mark_delivered-other (some c) now (id ∷ ids) db k h = refl

find-updated :
    (k : Uuid) (ids : List Uuid) (f : JobRow → JobRow) (rows : List JobRow) (row : JobRow)
    → ((j : JobRow) → (f j).id ≡ j.id)
    → ((j : JobRow) → (f j).status ≡ delivered)
    → elem k ids ≡ true
    → find (λ j. j.id == k) (update_where (λ j. elem j.id ids) f rows) ≡ some row
    → row.status ≡ delivered
unfolding find update_where
find-updated k ids f [] row same_id done h there = absurd (ground arith)
find-updated k ids f (x ∷ rows) row same_id done h there = elim (Bool-cases (x.id == k)) [
  | inl same ↦
      let taken : elem x.id ids ≡ true =
        subst (λ i. elem i ids ≡ true) (sym ((==_iff x.id k).0 same)) h in
      ground (arith, taken, same, same_id x, done x)
  | inr other ↦ find-updated k ids f rows row same_id done h (ground (arith, same_id x))
]

pub mark_delivered-done :
    (now : Time) (ids : List Uuid) (db : Db) (k : Uuid) (row : JobRow)
    → any (λ i. i == k) ids ≡ true
    → job_at k (batch_mark_delivered none now ids db).0 ≡ some row
    → row.status ≡ delivered
unfolding batch_mark_delivered update_jobs any
mark_delivered-done now [] db k row h there = absurd (false≢true h)
mark_delivered-done now (id ∷ ids) db k row h there =
    find-updated k (id ∷ ids) _ db.jobs row (λ j. refl) (λ j. refl) h there

pub get_request-id :
    (json : HeaderCodec) (fault : Option Cause) (id : Uuid) (db : Db) (r : Request)
    → get_request json fault id db ≡ ok r
    → r.id ≡ id
unfolding get_request vahak.Store.Sqlite.get_request
get_request-id json fault id db r h = read-id json fault id db r h

abbrev pub postgres_storage : HeaderCodec → Storage
postgres_storage json = record {
  State = Db;
  get_request = get_request json;
  get_endpoint = get_endpoint;
  create_endpoint = create_endpoint;
  list_endpoints = list_endpoints;
  update_endpoint = update_endpoint;
  delete_endpoint = delete_endpoint;
  get_requests_by_endpoint = get_requests_by_endpoint json;
  create_delivery_job = create_delivery_job;
  claim_pending_jobs = claim_pending_jobs;
  save_delivery_job = save_job_at;
  batch_mark_delivered = batch_mark_delivered;
  job_at = job_at;
  has_request = λ id db. has_key request_key id db.requests;
  get_request-id = get_request-id json;
  save-ok = save_job_at-ok;
  save-err = save_job_at-err;
  save-other = save_job_at-other;
  mark-other = mark_delivered-other;
  save-fresh = save_job_at-fresh;
  mark-done = mark_delivered-done;
}

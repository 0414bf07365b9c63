-- ===== src/Store/Db.antt =====
-- The three tables of initSchema (internal/store/sqlite.go) and of migrations/, with their primary
-- keys, foreign keys and cascades. `headers` is the JSON text.
pub mod Integrity
use vahak.Prelude.{
  ℕ, String, ◌==◌, Bool, true, false, not, ◌&&◌, Option, none, some, List, [], ◌∷◌, ◌++◌, any,
  select, delete_where, update_where, has_key, if◌then◌else◌,
}
use vahak.Models.{Uuid, Time, Status, Endpoint}
use vahak.Store.Error.{Cause, unique_violation, foreign_key_violation, Result, ok, err, ◌>>=◌}

pub record RequestRow : Type 0 where
  pub id : Uuid
  pub endpoint_id : Uuid
  pub method : String
  pub headers : String
  pub body : String
  pub source_ip : String
  pub received_at : Time

pub record JobRow : Type 0 where
  pub id : Uuid
  pub request_id : Uuid
  pub target_url : String
  pub status : Status
  pub attempts : ℕ
  pub last_attempt : Option Time
  pub next_attempt : Time
  pub created_at : Time

pub record Db : Type 0 where
  pub endpoints : List Endpoint
  pub requests : List RequestRow
  pub jobs : List JobRow

abbrev pub endpoint_key : Endpoint → Uuid
endpoint_key e = e.id

abbrev pub request_key : RequestRow → Uuid
request_key r = r.id

abbrev pub job_key : JobRow → Uuid
job_key j = j.id

-- INSERT INTO endpoints.
unfoldable pub insert_endpoint : Endpoint → Db → Result Cause Db
insert_endpoint e db =
    if has_key endpoint_key e.id db.endpoints
    then err unique_violation
    else ok (record db { endpoints = db.endpoints ++ e ∷ [] })

-- INSERT INTO requests, whose `endpoint_id` refers to `endpoints`.
unfoldable pub insert_request : RequestRow → Db → Result Cause Db
insert_request r db =
    if has_key request_key r.id db.requests
    then err unique_violation
    else if has_key endpoint_key r.endpoint_id db.endpoints
    then ok (record db { requests = db.requests ++ r ∷ [] })
    else err foreign_key_violation

-- INSERT INTO delivery_jobs, whose `request_id` refers to `requests`.
unfoldable pub insert_job : JobRow → Db → Result Cause Db
insert_job j db =
    if has_key job_key j.id db.jobs
    then err unique_violation
    else if has_key request_key j.request_id db.requests
    then ok (record db { jobs = db.jobs ++ j ∷ [] })
    else err foreign_key_violation

-- An INSERT of many rows inserts all of them or fails.
unfoldable pub insert_all {ℓ} :
    {A : Type ℓ} → (A → Db → Result Cause Db) → List A → Db → Result Cause Db
insert_all insert [] db = ok db
insert_all insert (row ∷ rows) db = insert row db >>= insert_all insert rows

-- DELETE FROM requests WHERE p, ON DELETE CASCADE to `delivery_jobs`.
unfoldable pub delete_requests : (RequestRow → Bool) → Db → Db
delete_requests p db = record db {
  requests = delete_where p db.requests;
  jobs = delete_where (λ j. any (λ r. p r && r.id == j.request_id) db.requests) db.jobs;
}

-- DELETE FROM endpoints WHERE p, ON DELETE CASCADE to `requests`, and on to `delivery_jobs`.
unfoldable pub delete_endpoints : (Endpoint → Bool) → Db → Db
unfolding delete_requests
delete_endpoints p db =
    let gone = λ (r : RequestRow). any (λ e. p e && e.id == r.endpoint_id) db.endpoints in
    record (delete_requests gone db) { endpoints = delete_where p db.endpoints }

unfoldable pub delete_jobs : (JobRow → Bool) → Db → Db
delete_jobs p db = record db { jobs = delete_where p db.jobs }

unfoldable pub update_jobs : (JobRow → Bool) → (JobRow → JobRow) → Db → Db
update_jobs p f db = record db { jobs = update_where p f db.jobs }

unfoldable pub update_endpoints : (Endpoint → Bool) → (Endpoint → Endpoint) → Db → Db
update_endpoints p f db = record db { endpoints = update_where p f db.endpoints }

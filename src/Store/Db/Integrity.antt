-- ===== src/Store/Db/Integrity.antt =====
-- The constraints of the schema, and that the statements keep them.
use vahak.Prelude.{
  ℕ, ◌==◌, Bool, true, false, ◌&&◌, ◌≡◌, List, [], ◌∷◌, ◌++◌, arith, any, delete_where, has_key,
  UniqueBy, All, UniqueBy-append, UniqueBy-delete_where, UniqueBy-update_where, All-append, All-map,
  All-update_where, All-delete_where, any-append, any-delete_where, any-split, any-update_where, ap,
  ◌∙◌, subst,
}
use vahak.Models.{Endpoint}
use vahak.Store.Error.{Cause, Result, ok, >>=-eq-ok}
use vahak.Store.Db.{
  Db, RequestRow, JobRow, endpoint_key, request_key, job_key, insert_endpoint, insert_request,
  insert_job, insert_all, delete_requests, delete_endpoints, delete_jobs, update_jobs,
  update_endpoints,
}

abbrev pub HasEndpoint : Db → RequestRow → Type 0
HasEndpoint db r = has_key endpoint_key r.endpoint_id db.endpoints ≡ true

abbrev pub HasRequest : Db → JobRow → Type 0
HasRequest db j = has_key request_key j.request_id db.requests ≡ true

pub record IsConsistent (db : Db) : Type 0 where
  pub endpoint_ids : UniqueBy endpoint_key db.endpoints
  pub request_ids : UniqueBy request_key db.requests
  pub job_ids : UniqueBy job_key db.jobs
  pub request_endpoints : All (HasEndpoint db) db.requests
  pub job_requests : All (HasRequest db) db.jobs

pub insert_endpoint-ok :
    (e : Endpoint) (db : Db) {db' : Db}
    → insert_endpoint e db ≡ ok db'
    → (has_key endpoint_key e.id db.endpoints ≡ false)
      × (db' ≡ record db { endpoints = db.endpoints ++ e ∷ [] })
unfolding insert_endpoint
insert_endpoint-ok e db h = ground arith

pub insert_request-ok :
    (r : RequestRow) (db : Db) {db' : Db}
    → insert_request r db ≡ ok db'
    → (has_key request_key r.id db.requests ≡ false)
      × HasEndpoint db r
      × (db' ≡ record db { requests = db.requests ++ r ∷ [] })
unfolding insert_request
insert_request-ok r db h = ground arith

pub insert_job-ok :
    (j : JobRow) (db : Db) {db' : Db}
    → insert_job j db ≡ ok db'
    → (has_key job_key j.id db.jobs ≡ false)
      × HasRequest db j
      × (db' ≡ record db { jobs = db.jobs ++ j ∷ [] })
unfolding insert_job
insert_job-ok j db h = ground arith

module _ {ℓ} {A : Type ℓ} (key : A → ℕ) where
  -- A row that is appended takes no key away.
  has_key-append :
      (k : ℕ) (rows more : List A) → has_key key k rows ≡ true → has_key key k (rows ++ more) ≡ true
  has_key-append k rows more h = rw (any-append (λ r. key r == k) rows more, h)

  -- The rows that `p` takes away, but for which no row with the key is taken, keep the key.
  has_key-delete_where_kept :
      (k : ℕ) (p : A → Bool) (rows : List A)
      → has_key key k rows ≡ true
      → any (λ r. p r && key r == k) rows ≡ false
      → has_key key k (delete_where p rows) ≡ true
  has_key-delete_where_kept k p rows h gone =
      ground (arith, any-delete_where p (λ r. key r == k) rows, any-split p (λ r. key r == k) rows)

pub insert_endpoint-IsConsistent :
    (e : Endpoint) (db : Db) {db' : Db}
    → IsConsistent db
    → insert_endpoint e db ≡ ok db'
    → IsConsistent db'
insert_endpoint-IsConsistent e db c h =
    let (fresh, eq) = insert_endpoint-ok e db h in
    rw eq (record {
      endpoint_ids = UniqueBy-append endpoint_key db.endpoints e c.endpoint_ids fresh;
      request_ids = c.request_ids;
      job_ids = c.job_ids;
      request_endpoints =
          All-map (HasEndpoint db) _ db.requests
            (λ r k. has_key-append endpoint_key r.endpoint_id db.endpoints (e ∷ []) k)
            c.request_endpoints;
      job_requests = c.job_requests;
    })

pub insert_request-IsConsistent :
    (r : RequestRow) (db : Db) {db' : Db}
    → IsConsistent db
    → insert_request r db ≡ ok db'
    → IsConsistent db'
insert_request-IsConsistent r db c h =
    let (fresh, parent, eq) = insert_request-ok r db h in
    rw eq (record {
      endpoint_ids = c.endpoint_ids;
      request_ids = UniqueBy-append request_key db.requests r c.request_ids fresh;
      job_ids = c.job_ids;
      request_endpoints =
          All-append (HasEndpoint db) db.requests (r ∷ []) c.request_endpoints (parent, tt);
      job_requests =
          All-map (HasRequest db) _ db.jobs
            (λ j k. has_key-append request_key j.request_id db.requests (r ∷ []) k) c.job_requests;
    })

pub insert_job-IsConsistent :
    (j : JobRow) (db : Db) {db' : Db}
    → IsConsistent db
    → insert_job j db ≡ ok db'
    → IsConsistent db'
insert_job-IsConsistent j db c h =
    let (fresh, parent, eq) = insert_job-ok j db h in
    rw eq (record {
      endpoint_ids = c.endpoint_ids;
      request_ids = c.request_ids;
      job_ids = UniqueBy-append job_key db.jobs j c.job_ids fresh;
      request_endpoints = c.request_endpoints;
      job_requests = All-append (HasRequest db) db.jobs (j ∷ []) c.job_requests (parent, tt);
    })

pub delete_requests-IsConsistent :
    (p : RequestRow → Bool) (db : Db) → IsConsistent db → IsConsistent (delete_requests p db)
unfolding delete_requests
delete_requests-IsConsistent p db c = record {
  endpoint_ids = c.endpoint_ids;
  request_ids = UniqueBy-delete_where request_key p db.requests c.request_ids;
  job_ids = UniqueBy-delete_where job_key _ db.jobs c.job_ids;
  request_endpoints = All-delete_where _ _ p db.requests (λ r h _. h) c.request_endpoints;
  job_requests =
      All-delete_where (HasRequest db) (HasRequest (delete_requests p db)) _ db.jobs
        (λ j h gone. has_key-delete_where_kept request_key j.request_id p db.requests h gone)
        c.job_requests;
}

pub delete_endpoints-IsConsistent :
    (p : Endpoint → Bool) (db : Db) → IsConsistent db → IsConsistent (delete_endpoints p db)
unfolding delete_endpoints
delete_endpoints-IsConsistent p db c =
    let gone = λ (r : RequestRow). any (λ e. p e && e.id == r.endpoint_id) db.endpoints in
    let c' = delete_requests-IsConsistent gone db c in
    record {
      endpoint_ids = UniqueBy-delete_where endpoint_key p db.endpoints c.endpoint_ids;
      request_ids = c'.request_ids;
      job_ids = c'.job_ids;
      request_endpoints =
          All-delete_where (HasEndpoint db) (HasEndpoint (delete_endpoints p db)) gone db.requests
            (λ r h kept. has_key-delete_where_kept endpoint_key r.endpoint_id p db.endpoints h kept)
            c.request_endpoints;
      job_requests = c'.job_requests;
    }

pub delete_jobs-IsConsistent :
    (p : JobRow → Bool) (db : Db) → IsConsistent db → IsConsistent (delete_jobs p db)
unfolding delete_jobs
delete_jobs-IsConsistent p db c = record {
  endpoint_ids = c.endpoint_ids;
  request_ids = c.request_ids;
  job_ids = UniqueBy-delete_where job_key p db.jobs c.job_ids;
  request_endpoints = c.request_endpoints;
  job_requests = All-delete_where _ _ p db.jobs (λ j h _. h) c.job_requests;
}

-- An UPDATE of the jobs that writes neither their identifier nor their request.
pub update_jobs-IsConsistent :
    (p : JobRow → Bool) (f : JobRow → JobRow) (db : Db)
    → ((j : JobRow) → (f j).id ≡ j.id)
    → ((j : JobRow) → (f j).request_id ≡ j.request_id)
    → IsConsistent db
    → IsConsistent (update_jobs p f db)
unfolding update_jobs
update_jobs-IsConsistent p f db same_id same_request c = record {
  endpoint_ids = c.endpoint_ids;
  request_ids = c.request_ids;
  job_ids = UniqueBy-update_where job_key p f db.jobs same_id c.job_ids;
  request_endpoints = c.request_endpoints;
  job_requests =
      All-update_where (HasRequest db) p f db.jobs (λ j h. rw (same_request j) h) c.job_requests;
}

pub update_endpoints-IsConsistent :
    (p : Endpoint → Bool) (f : Endpoint → Endpoint) (db : Db)
    → ((e : Endpoint) → (f e).id ≡ e.id)
    → IsConsistent db
    → IsConsistent (update_endpoints p f db)
unfolding update_endpoints
update_endpoints-IsConsistent p f db same_id c = record {
  endpoint_ids = UniqueBy-update_where endpoint_key p f db.endpoints same_id c.endpoint_ids;
  request_ids = c.request_ids;
  job_ids = c.job_ids;
  request_endpoints =
      All-map (HasEndpoint db) _ db.requests
        (λ r h.
          any-update_where p (λ e. e.id == r.endpoint_id) f db.endpoints
            (λ e. ap (λ k. k == r.endpoint_id) (same_id e))
          ∙ h)
        c.request_endpoints;
  job_requests = c.job_requests;
}

-- A batch of INSERTs keeps whatever each of them keeps.
pub insert_all-keeps {ℓ κ} :
    {A : Type ℓ} (P : Db → Type κ) (insert : A → Db → Result Cause Db) (rows : List A) (db : Db)
    {db' : Db}
    → ((row : A) (d e : Db) → P d → insert row d ≡ ok e → P e)
    → P db
    → insert_all insert rows db ≡ ok db'
    → P db'
unfolding insert_all
insert_all-keeps P insert [] db keep c h = subst P (ground arith) c
insert_all-keeps P insert (row ∷ rows) db keep c h =
    let (mid, first, rest) = >>=-eq-ok (insert row db) (insert_all insert rows) h in
    insert_all-keeps P insert rows mid keep (keep row db mid c first) rest

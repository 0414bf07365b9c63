-- ===== src/Store/Waiting.antt =====
-- A job that waits in the tables, and the statements of both engines that it outlasts
-- (internal/store/sqlite.go, internal/store/store.go).
use vahak.Prelude.{
  mem-of_any, ltb, ◌&&◌, ◌⊎◌, Option-cases, String, if◌then◌else◌, ◌≡◌, refl, sym, ap, ◌∙◌, inl,
  inr, Bool, true, false, Option, none, some, List, [], ◌∷◌, ◌++◌, arith, Bool-cases, any, find,
  update_where, delete_where, ◌==◌, ==_iff, Memᴰ,
}
use vahak.Models.{Endpoint, Uuid, Time, pending, is_terminal}
use vahak.Store.Error.{Cause, Result, ok, err, exec, commit}
use vahak.Store.Sqlite.Jobs.{is_expired}
use vahak.Store.Sqlite.Retention.{not-cascaded}
use vahak.Store.Db.{
  RequestRow, delete_endpoints, Db, JobRow, delete_jobs, delete_requests, update_jobs,
}
use vahak.Store.Sqlite.Reads.{job_at}

abbrev pub Waits : Uuid → Db → Type 0
Waits k db = (row : JobRow) × (job_at k db ≡ some row) × (row.status ≡ pending)

pub some-injective : {a b : JobRow} → some a ≡ some b → a ≡ b
some-injective h = cc

find-append :
    (k : Uuid) (rows more : List JobRow) (row : JobRow)
    → find (λ j. j.id == k) rows ≡ some row
    → find (λ j. j.id == k) (rows ++ more) ≡ some row
unfolding find
find-append k [] more row h = absurd (ground arith)
find-append k (x ∷ rows) more row h = ground (arith, find-append k rows more row)

-- The row that `find` gives passes an UPDATE that keeps the keys.
find-update_where :
    (k : Uuid) (p : JobRow → Bool) (f : JobRow → JobRow) (rows : List JobRow) (row : JobRow)
    → ((j : JobRow) → (f j).id ≡ j.id)
    → find (λ j. j.id == k) rows ≡ some row
    → find (λ j. j.id == k) (update_where p f rows) ≡ some (if p row then f row else row)
unfolding find update_where
find-update_where k p f [] row e h = absurd (ground arith)
find-update_where k p f (x ∷ rows) row e h =
    let same_id : (if p x then f x else x).id ≡ x.id = ground (arith, e x) in
    elim (Bool-cases (x.id == k)) [
      | inl hit ↦
          let here : x ≡ row = some-injective (rw hit at h) in
          let still : ((if p x then f x else x).id == k) ≡ true = ap (λ i. i == k) same_id ∙ hit in
          rw still (ap (λ j. some (if p j then f j else j)) here)
      | inr miss ↦
          let still : ((if p x then f x else x).id == k) ≡ false =
            ap (λ i. i == k) same_id ∙ miss in
          rw still (find-update_where k p f rows row e (rw miss at h))
    ]

-- A DELETE that spares the row.
pub find-delete_where :
    (k : Uuid) (p : JobRow → Bool) (rows : List JobRow) (row : JobRow)
    → find (λ j. j.id == k) rows ≡ some row
    → p row ≡ false
    → find (λ j. j.id == k) (delete_where p rows) ≡ some row
unfolding find delete_where
find-delete_where k p [] row h kept = absurd (ground arith)
find-delete_where k p (x ∷ rows) row h kept = ground (arith, find-delete_where k p rows row)

pub find-mem :
    (k : Uuid) (rows : List JobRow) (row : JobRow)
    → find (λ j. j.id == k) rows ≡ some row
    → Memᴰ row rows × (row.id ≡ k)
unfolding find
find-mem k [] row h = absurd (ground arith)
find-mem k (x ∷ rows) row h = elim (Bool-cases (x.id == k)) [
  | inl hit ↦
      let here : x ≡ row = some-injective (rw hit at h) in
      (Memᴰ.head (sym here), ap (λ j. j.id) (sym here) ∙ (==_iff x.id k).0 hit)
  | inr miss ↦ let (there, e) = find-mem k rows row (rw miss at h) in (Memᴰ.tail there, e)
]

-- The row stays, or what an UPDATE of the other columns makes of it.
pub update-Waits :
    (k : Uuid) (p : JobRow → Bool) (f : JobRow → JobRow) (db : Db)
    → ((j : JobRow) → (f j).id ≡ j.id)
    → ((j : JobRow) → (f j).status ≡ j.status)
    → Waits k db
    → Waits k (update_jobs p f db)
unfolding update_jobs
update-Waits k p f db same_id same_status (row, there, waiting) = (
  if p row then f row else row,
  find-update_where k p f db.jobs row same_id there,
  elim (Bool-cases (p row)) [
    | inl hit ↦ rw hit (same_status row ∙ waiting)
    | inr miss ↦ rw miss waiting
  ],
)

pub append-Waits :
    (k : Uuid) (db db' : Db) (more : List JobRow)
    → db'.jobs ≡ db.jobs ++ more
    → Waits k db
    → Waits k db'
append-Waits k db db' more e (row, there, waiting) =
    (row, ap (find (λ j. j.id == k)) e ∙ find-append k db.jobs more row there, waiting)

pub same_jobs-Waits : (k : Uuid) (db db' : Db) → db'.jobs ≡ db.jobs → Waits k db → Waits k db'
same_jobs-Waits k db db' e (row, there, waiting) =
    (row, ap (find (λ j. j.id == k)) e ∙ there, waiting)

pub commit-Waits :
    (k : Uuid) (op : String) (fault : Option Cause) {A : Type 0} (r : Result Cause Db) (a : A)
    (db : Db)
    → Waits k db
    → ((db' : Db) → r ≡ ok db' → Waits k db')
    → Waits k (commit db op (exec fault r) a).0
commit-Waits k op none (ok db') a db before after = after db' refl
commit-Waits k op none (err c) a db before after = before
commit-Waits k op (some c) r a db before after = before

-- DELETE FROM requests of requests without unfinished jobs, then FROM delivery_jobs.
pub prune-Waits :
    (k : Uuid) (op : String) (jobs_fault : Option Cause) (cutoff : Time) (db : Db)
    → Waits k db
    → let db' = delete_requests (is_expired cutoff db) db in
      Waits k
        (commit db' op
          (exec jobs_fault
            (ok (delete_jobs (λ j. is_terminal j.status && ltb j.created_at cutoff) db')))
          (tt {0})).0
unfolding delete_requests delete_jobs
prune-Waits k op jobs_fault cutoff db (row, there, waiting) =
    let (m, e) = find-mem k db.jobs row there in
    let unfinished : is_terminal row.status ≡ false = ap is_terminal waiting in
    let spared =
      find-delete_where k _ db.jobs row there (not-cascaded cutoff db row m unfinished) in
    elim (Option-cases jobs_fault) [
      | inl fine ↦
          rw fine (row, find-delete_where k _ _ row spared (ground (arith, unfinished)), waiting)
      | inr (c, bad) ↦ rw bad (row, spared, waiting)
    ]

-- The request of the job came in for the endpoint.
pub record IsOwner (id k : Uuid) (db : Db) : Type 0 where
  pub job : JobRow
  pub request : RequestRow
  pub job_there : job_at k db ≡ some job
  pub request_there : Memᴰ request db.requests
  pub of_request : request.id ≡ job.request_id
  pub of_endpoint : request.endpoint_id ≡ id

-- DELETE FROM endpoints takes the jobs of its requests, and no others.
pub delete-Waits :
    (k id : Uuid) (db : Db)
    → Waits k db
    → Waits k (delete_endpoints (λ e. e.id == id) db) ⊎ IsOwner id k db
unfolding delete_endpoints delete_requests
delete-Waits k id db (row, there, waiting) =
    let of = λ (r : RequestRow) (e : Endpoint). e.id == id && e.id == r.endpoint_id in
    let taken = λ (j : JobRow) (r : RequestRow). any (of r) db.endpoints && r.id == j.request_id in
    elim (Bool-cases (any (taken row) db.requests)) [
      | inr spared ↦ inl (
        row,
        find-delete_where k (λ j. any (taken j) db.requests) db.jobs row there spared,
        waiting,
      )
      | inl gone ↦
          let (r, known, hit) = mem-of_any (taken row) db.requests gone in
          let (e, listed, same) = mem-of_any (of r) db.endpoints (ground arith) in
          inr (record {
            job = row;
            request = r;
            job_there = there;
            request_there = known;
            of_request = ground arith;
            of_endpoint = ground arith;
          })
    ]

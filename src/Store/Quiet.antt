-- ===== src/Store/Quiet.antt =====
-- Statements on requests and jobs leave the endpoints alone (internal/store/sqlite.go,
-- internal/store/store.go).
use vahak.Prelude.{String, ◌≡◌, refl, ap, inl, inr, Bool-cases, Option, none, some, has_key}
use vahak.Store.Error.{Cause, Result, ok, err, exec, commit}
use vahak.Store.Db.{Db, JobRow, job_key, update_jobs}
use vahak.Store.Db.Integrity.{insert_job-ok}
use vahak.Store.Sqlite.Jobs.{upsert_job}

pub commit-quiet :
    (op : String) (fault : Option Cause) {A : Type 0} (r : Result Cause Db) (a : A) (db : Db)
    → ((db' : Db) → r ≡ ok db' → db'.endpoints ≡ db.endpoints)
    → (commit db op (exec fault r) a).0.endpoints ≡ db.endpoints
commit-quiet op none (ok db') a db quiet = quiet db' refl
commit-quiet op none (err c) a db quiet = refl
commit-quiet op (some c) r a db quiet = refl

pub upsert_job-quiet :
    (row : JobRow) (db db' : Db) → upsert_job row db ≡ ok db' → db'.endpoints ≡ db.endpoints
unfolding upsert_job update_jobs
upsert_job-quiet row db db' h = elim (Bool-cases (has_key job_key row.id db.jobs)) [
  | inl known ↦ ap_ok (rw known at h)
  | inr fresh ↦ ap (λ d. d.endpoints) (insert_job-ok row db (rw fresh at h)).2
]
  where
    ap_ok : {d : Db} → ◌≡◌ {A = Result Cause Db} (ok d) (ok db') → db'.endpoints ≡ d.endpoints
    ap_ok e = cc e

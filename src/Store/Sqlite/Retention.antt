-- ===== src/Store/Sqlite/Retention.antt =====
-- PruneExpired never takes work that is not finished (internal/store/sqlite.go).
use vahak.Prelude.{
  ℕ, zero, suc, ◌+◌, ◌-◌, ◌*◌, ◌≤◌, ◌==◌, ◌≡◌, ◌⊎◌, inl, inr, true, false, not, ◌&&◌, Option, none,
  some, arith, any, All, Bool-cases, mem-delete_where, any-of_mem, any-false, ==_iff,
  All-delete_where, All-trivial,
}
use mathlib.Core.List.{Memᴰ}
use vahak.Models.{Time, is_terminal}
use vahak.Store.Error.{Cause}
use vahak.Store.Db.{Db, JobRow, RequestRow, delete_requests, delete_jobs}
use vahak.Store.Sqlite.Jobs.{day, is_expired, prune_statements, prune_expired}

not-expired :
    (cutoff : Time) (db : Db) (j : JobRow) (r : RequestRow)
    → Memᴰ j db.jobs
    → is_terminal j.status ≡ false
    → r.id ≡ j.request_id
    → is_expired cutoff db r ≡ false
not-expired cutoff db j r m h e =
    let pending_job : any (λ k. k.request_id == r.id && not (is_terminal k.status)) db.jobs ≡ true =
      any-of_mem _ m (ground arith) in
    ground arith

pub not-cascaded :
    (cutoff : Time) (db : Db) (j : JobRow)
    → Memᴰ j db.jobs
    → is_terminal j.status ≡ false
    → any (λ r. is_expired cutoff db r && r.id == j.request_id) db.requests ≡ false
not-cascaded cutoff db j m h = any-false _ db.requests λ r.
    elim (Bool-cases (r.id == j.request_id)) [
      | inl e ↦ ground (arith, not-expired cutoff db j r m h ((==_iff r.id j.request_id).0 e))
      | inr n ↦ ground arith
    ]

statements_keep :
    (requests_fault jobs_fault : Option Cause) (cutoff : Time) (db : Db) (j : JobRow)
    → Memᴰ j db.jobs
    → is_terminal j.status ≡ false
    → let db' = (prune_statements requests_fault jobs_fault cutoff db).0 in
      Memᴰ j db'.jobs
      × ((r : RequestRow) → Memᴰ r db.requests → r.id ≡ j.request_id → Memᴰ r db'.requests)
unfolding prune_statements delete_requests delete_jobs
statements_keep (some c) jobs_fault cutoff db j m h = (m, λ r k e. k)
statements_keep none (some c) cutoff db j m h = (
  mem-delete_where _ m (not-cascaded cutoff db j m h),
  λ r k e. mem-delete_where _ k (not-expired cutoff db j r m h e),
)
statements_keep none none cutoff db j m h = (
  mem-delete_where _ (mem-delete_where _ m (not-cascaded cutoff db j m h)) (ground arith),
  λ r k e. mem-delete_where _ k (not-expired cutoff db j r m h e),
)

-- A job that is not delivered, failed or dead outlives PruneExpired as it is, however old it and
-- its request are and whichever statement the driver refuses, and so does the request that it is
-- to deliver.
pub prune_keeps_unfinished :
    (requests_fault jobs_fault : Option Cause) (now : Time) (days : ℕ) (db : Db) (j : JobRow)
    → Memᴰ j db.jobs
    → is_terminal j.status ≡ false
    → let db' = (prune_expired requests_fault jobs_fault now days db).0 in
      Memᴰ j db'.jobs
      × ((r : RequestRow) → Memᴰ r db.requests → r.id ≡ j.request_id → Memᴰ r db'.requests)
unfolding prune_expired
prune_keeps_unfinished requests_fault jobs_fault now zero db j m h = (m, λ r k e. k)
prune_keeps_unfinished requests_fault jobs_fault now (suc days) db j m h =
    statements_keep requests_fault jobs_fault (now - suc days * day) db j m h

-- With a retention of at least a day and a driver that refuses nothing, each request that is left
-- is younger than the retention or still has an unfinished job, and each job that is left is
-- unfinished or was created within the retention.
pub prune_takes_the_rest :
    (now : Time) (days : ℕ) (db : Db)
    → 1 ≤ days
    → let db' = (prune_expired none none now days db).0 in
      All
        (λ r.
          (now ≤ r.received_at + days * day)
          ⊎ (any (λ j. j.request_id == r.id && not (is_terminal j.status)) db.jobs ≡ true))
        db'.requests
      × All (λ j. (is_terminal j.status ≡ false) ⊎ (now ≤ j.created_at + days * day)) db'.jobs
unfolding prune_expired prune_statements delete_requests delete_jobs
prune_takes_the_rest now zero db h = absurd (omega arith)
prune_takes_the_rest now (suc days) db h = (
  All-delete_where (λ _. Unit {0}) _ _ db.requests (λ r _ kept. ground arith)
      (All-trivial db.requests),
  All-delete_where (λ _. Unit {0}) _ _ _ (λ j _ kept. ground arith) (All-trivial _),
)

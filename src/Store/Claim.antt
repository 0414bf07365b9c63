-- ===== src/Store/Claim.antt =====
-- The statement of ClaimPendingJobs (internal/store/sqlite.go, internal/store/store.go): select the
-- pending jobs that are due, the earliest first, and move their next attempt to the lease's end.
pub mod Lease
pub mod Drain
pub mod Backlog
pub mod Hands
use vahak.Prelude.{ℕ, ◌==◌, Bool, ◌&&◌, List, any, select, has_key, leb, take, String}
use vahak.Prelude.Sort.{sort_by}
use vahak.Models.{Uuid, Time, DeliveryJob, is_pending}
use vahak.Store.Db.{Db, JobRow, job_key, update_jobs}

-- WHERE status = 'pending' AND next_attempt <= now.
abbrev pub is_due : Time → JobRow → Bool
is_due now j = is_pending j.status && leb j.next_attempt now

-- The subquery, with its ORDER BY and LIMIT.
unfoldable pub due_jobs : Time → ℕ → Db → List JobRow
due_jobs now limit db = take limit (sort_by (λ j. j.next_attempt) (select (is_due now) db.jobs))

-- UPDATE … WHERE id IN (…) RETURNING …
unfoldable pub claim_rows : Time → Time → ℕ → Db → Db × List JobRow
claim_rows now lease_until limit db =
    let claimed = λ (j : JobRow). has_key job_key j.id (due_jobs now limit db) in
    let db' = update_jobs claimed (λ j. record j { next_attempt = lease_until }) db in
    (db', select claimed db'.jobs)

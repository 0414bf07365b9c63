-- ===== src/Store/Claim/Backlog.antt =====
-- How a claim shrinks the backlog (internal/store/sqlite.go, ClaimPendingJobs).
use vahak.Prelude.{
  ℕ, ◌+◌, ◌≤◌, ◌<◌, ◌≡◌, refl, ap, ◌∙◌, Bool, true, false, ◌&&◌, List, [], ◌∷◌, arith, length,
  select, update_where, has_key, ltb, All, All-of_mem,
}
use vahak.Prelude.Counting.{length-select_update}
use vahak.Models.{Time, is_pending}
use vahak.Store.Db.{Db, JobRow, job_key, update_jobs}
use vahak.Store.Db.Integrity.{IsConsistent}
use vahak.Store.Claim.{is_due, due_jobs, claim_rows}
use vahak.Store.Claim.Lease.{claimed-is_due}

-- A pending job that is due before `bound`.
abbrev pub is_open : Time → JobRow → Bool
is_open bound j = is_pending j.status && ltb j.next_attempt bound

abbrev pub backlog : Time → Db → ℕ
backlog bound db = length (select (is_open bound) db.jobs)

-- The rows that an UPDATE moves out of a selection.
length-select_moved :
    (p q : JobRow → Bool) (f : JobRow → JobRow) (rows : List JobRow)
    → All (λ r. p r ≡ true → q r ≡ true) rows
    → ((r : JobRow) → q (f r) ≡ false)
    → length (select q (update_where p f rows)) + length (select p rows) ≡ length (select q rows)
unfolding select update_where
length-select_moved p q f [] within out = refl
length-select_moved p q f (r ∷ rows) within out =
    ground (arith, within.0, out r, length-select_moved p q f rows within.1 out)

-- Each job that is claimed before `bound`, until then at least, leaves the backlog.
pub backlog-claim_rows :
    (now lease_until bound : Time) (limit : ℕ) (db : Db)
    → IsConsistent db
    → now < bound
    → bound ≤ lease_until
    → let (db', rows) = claim_rows now lease_until limit db in
      backlog bound db' + length rows ≡ backlog bound db
unfolding claim_rows update_jobs
backlog-claim_rows now lease_until bound limit db c before after =
    let claimed = λ (j : JobRow). has_key job_key j.id (due_jobs now limit db) in
    let f = λ (j : JobRow). record j { next_attempt = lease_until } in
    ap (λ n. backlog bound (claim_rows now lease_until limit db).0 + n)
      (length-select_update claimed claimed f db.jobs (λ j. refl))
    ∙ length-select_moved claimed (is_open bound) f db.jobs
        (All-of_mem _ db.jobs (λ j m hit.
          let due : is_due now j ≡ true = claimed-is_due now limit db j c m hit in ground arith))
        (λ j. ground arith)

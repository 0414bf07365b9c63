-- ===== src/Store/Claim/Drain.antt =====
-- How many jobs a claim hands out, and what a short claim says (internal/store/sqlite.go,
-- ClaimPendingJobs; the sweeper of internal/forwarder/forwarder.go reads it).
use vahak.Prelude.{
  ℕ, ◌≤◌, ◌<◌, min, ◌==◌, ◌≡◌, refl, sym, ap, ◌∙◌, inl, inr, true, false, ◌&&◌, arith, length,
  length-take, any, select, has_key, All, UniqueBy, Bool-cases, if◌then◌else◌, any-select,
  any-of_mem, any-weaken, All-of_mem, Memᴰ, subst, ==_iff,
}
use mathlib.Core.Bool.{false≢true}
use vahak.Prelude.Sort.{any-sort_by, length-sort_by}
use vahak.Prelude.Counting.{
  length-select-has_key, length-select_update, take_all, UniqueBy-select, UniqueBy-sort_by,
  UniqueBy-take,
}
use vahak.Models.{Time}
use vahak.Store.Db.{Db, JobRow, job_key, update_jobs}
use vahak.Store.Db.Integrity.{IsConsistent}
use vahak.Store.Claim.{is_due, due_jobs, claim_rows}
use vahak.Store.Claim.Lease.{mem-update_where, due_jobs-any}

due_jobs-UniqueBy :
    (now : Time) (limit : ℕ) (db : Db) → IsConsistent db → UniqueBy job_key (due_jobs now limit db)
unfolding due_jobs
due_jobs-UniqueBy now limit db c = UniqueBy-take job_key limit _ (
    UniqueBy-sort_by job_key (λ j. j.next_attempt) _
      (UniqueBy-select job_key (is_due now) db.jobs c.job_ids))

-- A picked job stands in the table.
due_jobs-known :
    (now : Time) (limit : ℕ) (db : Db)
    → All (λ s. has_key job_key s.id db.jobs ≡ true) (due_jobs now limit db)
due_jobs-known now limit db = All-of_mem _ (due_jobs now limit db) λ s m.
    any-weaken (is_due now) (λ j. j.id == s.id) db.jobs
      (due_jobs-any now limit db s.id
        (any-of_mem (λ j. j.id == s.id) m ((==_iff s.id s.id).1 refl)))

length-due_jobs :
    (now : Time) (limit : ℕ) (db : Db)
    → length (due_jobs now limit db) ≡ min limit (length (select (is_due now) db.jobs))
unfolding due_jobs
length-due_jobs now limit db =
    length-take limit _ ∙ ap (min limit) (length-sort_by (λ j. j.next_attempt) _)

-- A claim returns as many jobs as are due, or as its limit allows if that is less.
pub length-claim_rows :
    (now lease_until : Time) (limit : ℕ) (db : Db)
    → IsConsistent db
    → length (claim_rows now lease_until limit db).1
      ≡ min limit (length (select (is_due now) db.jobs))
unfolding claim_rows update_jobs
length-claim_rows now lease_until limit db c =
    length-select_update (λ (j : JobRow). has_key job_key j.id (due_jobs now limit db)) _ _ db.jobs
      (λ j. refl)
    ∙ length-select-has_key job_key (due_jobs now limit db) db.jobs
        (due_jobs-UniqueBy now limit db c) c.job_ids (due_jobs-known now limit db)
    ∙ length-due_jobs now limit db

-- If fewer jobs are due than the limit, each of them is picked.
pub short-picks :
    (now : Time) (limit : ℕ) (db : Db) (j : JobRow)
    → length (select (is_due now) db.jobs) < limit
    → Memᴰ j db.jobs
    → is_due now j ≡ true
    → has_key job_key j.id (due_jobs now limit db) ≡ true
unfolding due_jobs
short-picks now limit db j short m due =
    ap (any (λ s. s.id == j.id)) (
      take_all limit _
        (omega (arith, length-sort_by (λ r. r.next_attempt) (select (is_due now) db.jobs))))
    ∙ any-sort_by (λ r. r.next_attempt) (λ s. s.id == j.id) (select (is_due now) db.jobs)
    ∙ any-select (is_due now) (λ s. s.id == j.id) db.jobs
    ∙ any-of_mem (λ s. is_due now s && s.id == j.id) m (ground (arith, ==_iff j.id j.id))

none_due :
    (now lease_until : Time) (limit : ℕ) (db : Db)
    → now < lease_until
    → length (select (is_due now) db.jobs) < limit
    → All (λ j. is_due now j ≡ false) (claim_rows now lease_until limit db).0.jobs
unfolding claim_rows update_jobs
none_due now lease_until limit db lease short = All-of_mem _ _ λ j m.
    let claimed = λ (r : JobRow). has_key job_key r.id (due_jobs now limit db) in
    let (old, before, e) = mem-update_where claimed _ db.jobs m in
    elim (Bool-cases (claimed old)) [
      | inl hit ↦
          let leased : j ≡ record old { next_attempt = lease_until } =
            subst (λ b. j ≡ (if b then record old { next_attempt = lease_until } else old)) hit e in
          rw leased (ground arith)
      | inr miss ↦
          let same : j ≡ old =
            subst (λ b. j ≡ (if b then record old { next_attempt = lease_until } else old)) miss
              e in
          elim (Bool-cases (is_due now old)) [
            | inl due ↦
                absurd (false≢true (sym miss ∙ short-picks now limit db old short before due))
            | inr idle ↦ rw same idle
          ]
    ]

-- A claim with a lease never returns more jobs than its limit; and if it returns fewer, no job of
-- the tables that it leaves is pending and due.
pub claim_drains :
    (now lease_until : Time) (limit : ℕ) (db : Db)
    → IsConsistent db
    → now < lease_until
    → let (db', rows) = claim_rows now lease_until limit db in
      (length rows ≤ limit) × (length rows < limit → All (λ j. is_due now j ≡ false) db'.jobs)
claim_drains now lease_until limit db c lease = (
  omega (arith, length-claim_rows now lease_until limit db c),
  λ short.
      none_due now lease_until limit db lease
        (omega (arith, length-claim_rows now lease_until limit db c)),
)

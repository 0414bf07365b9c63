-- ===== src/Store/Claim/Lease.antt =====
-- What a claim leases, and that a lease is exclusive (internal/store/sqlite.go, ClaimPendingJobs).
use vahak.Prelude.{
  ℕ, ◌≤◌, ◌<◌, ◌==◌, ◌≡◌, refl, sym, ◌∙◌, subst, Bool, true, ◌&&◌, List, [], ◌∷◌, arith, any,
  select, update_where, has_key, Memᴰ, Bool-cases, if◌then◌else◌, UniqueBy-pick, any-select,
  any-take, mem-select, any-of_mem, inl, inr, ◌≢◌,
}
use mathlib.Core.Bool.{false≢true}
use vahak.Prelude.Sort.{any-sort_by}
use vahak.Models.{Uuid, Time, is_pending}
use vahak.Store.Db.{Db, JobRow, job_key, update_jobs}
use vahak.Store.Db.Integrity.{IsConsistent, update_jobs-IsConsistent}
use vahak.Store.Claim.{is_due, due_jobs, claim_rows}

-- A key among the jobs that the subquery picks is the key of a due job of the table.
pub due_jobs-any :
    (now : Time) (limit : ℕ) (db : Db) (k : Uuid)
    → has_key job_key k (due_jobs now limit db) ≡ true
    → any (λ j. is_due now j && j.id == k) db.jobs ≡ true
unfolding due_jobs
due_jobs-any now limit db k h =
    sym (any-select (is_due now) (λ j. j.id == k) db.jobs)
    ∙ sym (any-sort_by (λ j. j.next_attempt) (λ j. j.id == k) (select (is_due now) db.jobs))
    ∙ any-take (λ j. j.id == k) limit _ h

-- So a row of the table that is claimed is due itself.
pub claimed-is_due :
    (now : Time) (limit : ℕ) (db : Db) (j : JobRow)
    → IsConsistent db
    → Memᴰ j db.jobs
    → has_key job_key j.id (due_jobs now limit db) ≡ true
    → is_due now j ≡ true
claimed-is_due now limit db j c m h =
    UniqueBy-pick job_key (is_due now) db.jobs c.job_ids m (due_jobs-any now limit db j.id h)

-- A row after the claim comes from a row before it.
pub mem-update_where :
    (p : JobRow → Bool) (f : JobRow → JobRow) (rows : List JobRow) {j : JobRow}
    → Memᴰ j (update_where p f rows)
    → (old : JobRow) × Memᴰ old rows × (j ≡ (if p old then f old else old))
unfolding update_where
mem-update_where p f [] m = elim m [ ]
mem-update_where p f (r ∷ rows) (Memᴰ.head e) = (r, Memᴰ.head refl, e)
mem-update_where p f (r ∷ rows) (Memᴰ.tail m) =
    let (old, there, e) = mem-update_where p f rows m in (old, Memᴰ.tail there, e)

-- A row that a claim returns is a due row with its lease written.
claimed_row :
    (now lease_until : Time) (limit : ℕ) (db : Db) (j : JobRow)
    → Memᴰ j (claim_rows now lease_until limit db).1
    → (old : JobRow) × Memᴰ old db.jobs
      × (has_key job_key old.id (due_jobs now limit db) ≡ true)
      × (j ≡ record old { next_attempt = lease_until })
unfolding claim_rows update_jobs
claimed_row now lease_until limit db j m =
    let claimed = λ (r : JobRow). has_key job_key r.id (due_jobs now limit db) in
    let (there, picked) = mem-select claimed _ m in
    let (old, before, e) = mem-update_where claimed _ db.jobs there in
    elim (Bool-cases (claimed old)) [
      | inl hit ↦ (
        old,
        before,
        hit,
        subst (λ b. j ≡ (if b then record old { next_attempt = lease_until } else old)) hit e,
      )
      | inr miss ↦
          let same : j ≡ old =
            subst (λ b. j ≡ (if b then record old { next_attempt = lease_until } else old)) miss
              e in
          absurd (false≢true (sym miss ∙ subst (λ r. claimed r ≡ true) same picked))
    ]

-- Every job that a claim returns was pending and due in the table, and is returned as it stood there
-- but for its next attempt, which is the end of the lease.
claim_leases :
    (now lease_until : Time) (limit : ℕ) (db : Db) (j : JobRow)
    → IsConsistent db
    → Memᴰ j (claim_rows now lease_until limit db).1
    → (old : JobRow) × Memᴰ old db.jobs
      × (is_pending old.status ≡ true)
      × (old.next_attempt ≤ now)
      × (j ≡ record old { next_attempt = lease_until })
claim_leases now lease_until limit db j c m =
    let (old, before, hit, e) = claimed_row now lease_until limit db j m in
    let due : is_due now old ≡ true = claimed-is_due now limit db old c before hit in
    (old, before, ground arith, ground arith, e)

pub claim_rows-IsConsistent :
    (now lease_until : Time) (limit : ℕ) (db : Db)
    → IsConsistent db
    → IsConsistent (claim_rows now lease_until limit db).0
unfolding claim_rows
claim_rows-IsConsistent now lease_until limit db c =
    update_jobs-IsConsistent _ _ db (λ j. refl) (λ j. refl) c

claimed-mem :
    (now lease_until : Time) (limit : ℕ) (db : Db) (j : JobRow)
    → Memᴰ j (claim_rows now lease_until limit db).1
    → Memᴰ j (claim_rows now lease_until limit db).0.jobs
unfolding claim_rows
claimed-mem now lease_until limit db j m = (mem-select _ _ m).0

-- No job is handed out again before its lease ends: a second claim, made of the tables that the
-- first one left and before the end of its lease, returns no job with the identifier of one that
-- the first returned.
pub claim_exclusive :
    (now lease_until later lease_until' : Time) (limit limit' : ℕ) (db : Db) (j k : JobRow)
    → IsConsistent db
    → later < lease_until
    → Memᴰ j (claim_rows now lease_until limit db).1
    → Memᴰ k (claim_rows later lease_until' limit' (claim_rows now lease_until limit db).0).1
    → j.id ≢ k.id
claim_exclusive now lease_until later lease_until' limit limit' db j k c before mj mk same =
    let db1 = (claim_rows now lease_until limit db).0 in
    let c1 = claim_rows-IsConsistent now lease_until limit db c in
    let (old, there, _, due, e) = claim_leases later lease_until' limit' db1 k c1 mk in
    let (_, _, _, f) = claimed_row now lease_until limit db j mj in
    let found : any (λ r. r.next_attempt == lease_until && r.id == old.id) db1.jobs ≡ true =
      any-of_mem (λ r. r.next_attempt == lease_until && r.id == old.id)
        (claimed-mem now lease_until limit db j mj) (ground arith) in
    let leased : (old.next_attempt == lease_until) ≡ true =
      UniqueBy-pick job_key (λ r. r.next_attempt == lease_until) db1.jobs c1.job_ids there found in
    ground arith

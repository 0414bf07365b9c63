-- ===== src/Store/Claim/Hands.antt =====
-- A short claim hands out every job that is due (internal/store/sqlite.go, ClaimPendingJobs).
use vahak.Prelude.{
  if◌then◌else◌, ◌==◌, suc, sym, ℕ, ◌≤◌, ◌<◌, ◌≡◌, refl, ap, ◌∙◌, Bool, inl, inr, true, some, List,
  [], ◌∷◌, arith, length, map, select, update_where, has_key, Bool-cases, Memᴰ,
}
use vahak.Models.{Uuid, Time, DeliveryJob, pending}
use vahak.Store.Db.{Db, JobRow, job_key, update_jobs}
use vahak.Store.Db.Integrity.{IsConsistent}
use vahak.Store.Claim.{is_due, due_jobs, claim_rows}
use vahak.Store.Claim.Drain.{length-claim_rows, short-picks}
use vahak.Store.Sqlite.Jobs.{scan_job}
use vahak.Store.Sqlite.Reads.{job_at}
use vahak.Store.Stored.{mem-map}
use vahak.Store.Waiting.{find-mem}

-- A row that an UPDATE changes stands in the table as changed.
mem-updated :
    (p : JobRow → Bool) (f : JobRow → JobRow) {a : JobRow} (rows : List JobRow)
    → Memᴰ a rows
    → p a ≡ true
    → Memᴰ (f a) (update_where p f rows)
unfolding update_where
mem-updated p f [] m hit = elim m [ ]
mem-updated p f (r ∷ rows) (Memᴰ.head e) hit =
    let here : p r ≡ true = ap p (sym e) ∙ hit in rw here (Memᴰ.head (ap f e))
mem-updated p f (r ∷ rows) (Memᴰ.tail m) hit = Memᴰ.tail (mem-updated p f rows m hit)

mem-selected :
    (p : JobRow → Bool) {a : JobRow} (rows : List JobRow)
    → Memᴰ a rows
    → p a ≡ true
    → Memᴰ a (select p rows)
unfolding select
mem-selected p [] m hit = elim m [ ]
mem-selected p (r ∷ rows) (Memᴰ.head e) hit =
    let here : p r ≡ true = ap p (sym e) ∙ hit in rw here (Memᴰ.head e)
mem-selected p (r ∷ rows) (Memᴰ.tail m) hit = elim (Bool-cases (p r)) [
  | inl here ↦ rw here (Memᴰ.tail (mem-selected p rows m hit))
  | inr miss ↦ rw miss (mem-selected p rows m hit)
]

-- A limit that is not zero is used as it is.
pub limited : (n : ℕ) → (if suc n == 0 then 100 else suc n) ≡ suc n
limited n = ground arith

length-scanned : (rows : List JobRow) → length (map scan_job rows) ≡ length rows
length-scanned [] = refl
length-scanned (r ∷ rows) = ap suc (length-scanned rows)

-- If a claim returns fewer jobs than its limit, a pending job whose next attempt has come is one of
-- them, with the target that the table has for it.
pub claim_rows-hands :
    (k : Uuid) (now lease_until : Time) (limit : ℕ) (db : Db)
    → IsConsistent db
    → length (map scan_job (claim_rows now lease_until limit db).1) < limit
    → (row : JobRow) → job_at k db ≡ some row
    → row.status ≡ pending
    → row.next_attempt ≤ now
    → (job : DeliveryJob) × Memᴰ job (map scan_job (claim_rows now lease_until limit db).1)
      × (job.id ≡ k)
      × (job.target_url ≡ row.target_url)
unfolding claim_rows update_jobs
claim_rows-hands k now lease_until limit db c short row there waiting due =
    let f = λ (j : JobRow). record j { next_attempt = lease_until } in
    let claimed = λ (j : JobRow). has_key job_key j.id (due_jobs now limit db) in
    let (m, e) = find-mem k db.jobs row there in
    let ready : is_due now row ≡ true = rw waiting (ground arith) in
    let count = length-claim_rows now lease_until limit db c in
    let few = length-scanned (claim_rows now lease_until limit db).1 in
    let picked = short-picks now limit db row (omega (arith, count, few)) m ready in
    (
      scan_job (f row),
      mem-map scan_job (mem-selected claimed _ (mem-updated claimed f db.jobs m picked) picked),
      e,
      refl,
    )

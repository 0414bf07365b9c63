-- ===== src/Store/Stored.antt =====
-- A job that a batch has put into a table is found there (internal/store/sqlite.go,
-- internal/store/store.go).
use vahak.Prelude.{
  Option-cases, ◌≡◌, refl, sym, ap, subst, ◌∙◌, inl, inr, true, some, List, [], ◌∷◌, ◌++◌,
  Bool-cases, Memᴰ, map, find, has_key, ◌==◌, ==_iff, UniqueBy, any-of_mem,
}
use mathlib.Core.Bool.{false≢true}
use vahak.Models.{DeliveryJob, pending}
use vahak.Store.Db.{Db, JobRow, job_key}
use vahak.Store.Db.Integrity.{IsConsistent}
use vahak.Store.Sqlite.Flush.{IngestItem, valid_jobs}
use vahak.Store.Waiting.{Waits}

-- In a table with a primary key, a reader finds the row that is there.
find-of_mem :
    (rows : List JobRow) {row : JobRow}
    → UniqueBy job_key rows
    → Memᴰ row rows
    → find (λ j. j.id == row.id) rows ≡ some row
unfolding find
find-of_mem [] u m = elim m [ ]
find-of_mem (x ∷ rows) {row} u (Memᴰ.head e) =
    let hit : (x.id == row.id) ≡ true = (==_iff x.id row.id).1 (ap (λ j. j.id) (sym e)) in
    rw hit (ap some (sym e))
find-of_mem (x ∷ rows) {row} u (Memᴰ.tail m) = elim (Bool-cases (x.id == row.id)) [
  | inr other ↦ rw other (find-of_mem rows u.1 m)
  | inl same ↦
      let clash : has_key job_key x.id rows ≡ true =
        any-of_mem (λ j. j.id == x.id) m
          ((==_iff row.id x.id).1 (sym ((==_iff x.id row.id).0 same))) in
      absurd (false≢true (sym u.0 ∙ clash))
]

mem-append_right : {A : Type 0} (xs ys : List A) {a : A} → Memᴰ a ys → Memᴰ a (xs ++ ys)
mem-append_right [] ys m = m
mem-append_right (x ∷ xs) ys m = Memᴰ.tail (mem-append_right xs ys m)

pub mem-map : {A B : Type 0} (f : A → B) {a : A} {xs : List A} → Memᴰ a xs → Memᴰ (f a) (map f xs)
mem-map f (Memᴰ.head e) = Memᴰ.head (ap f e)
mem-map f (Memᴰ.tail m) = Memᴰ.tail (mem-map f m)

mem-valid_jobs :
    (items : List IngestItem) {item : IngestItem} (job : DeliveryJob)
    → Memᴰ item items
    → item.job ≡ some job
    → Memᴰ job (valid_jobs items)
unfolding valid_jobs
mem-valid_jobs [] job m h = elim m [ ]
mem-valid_jobs (x ∷ items) job (Memᴰ.head e) h =
    let here : x.job ≡ some job = ap (λ i. i.job) (sym e) ∙ h in rw here (Memᴰ.head refl)
mem-valid_jobs (x ∷ items) job (Memᴰ.tail m) h =
    let rest = mem-valid_jobs items job m h in
    elim (Option-cases x.job) [
      | inl nothing ↦ rw nothing rest
      | inr (other, e) ↦ rw e (Memᴰ.tail rest)
    ]

-- `write` makes the row of a job.
pub stored-Waits :
    (write : DeliveryJob → JobRow) (items : List IngestItem) (item : IngestItem) (job : DeliveryJob)
    (rows : List JobRow) (db' : Db)
    → IsConsistent db'
    → db'.jobs ≡ rows ++ map write (valid_jobs items)
    → Memᴰ item items
    → item.job ≡ some job
    → (write job).status ≡ pending
    → Waits (write job).id db'
stored-Waits write items item job rows db' c jobs m of_item waiting =
    let there : Memᴰ (write job) db'.jobs =
      subst (λ l. Memᴰ (write job) l) (sym jobs)
        (mem-append_right rows _ (mem-map write (mem-valid_jobs items job m of_item))) in
    (write job, find-of_mem db'.jobs c.job_ids there, waiting)

-- ===== src/Store/Sqlite/Chunks.antt =====
-- The multi-row chunks of flushBatch against one bulk statement (internal/store/sqlite.go).
use vahak.Prelude.{
  ℕ, zero, suc, ◌≤◌, ◌≡◌, refl, sym, ap, subst, ◌∙◌, Option, none, List, [], ◌∷◌, ◌++◌, map, length,
  take, drop, take-append-drop, length-drop, arith,
}
use mathlib.Core.List.{map-append}
use vahak.Store.Error.{Cause, Result, ok, ◌>>=◌, >>=-eq-ok, >>=-assoc, >>=-cong}
use vahak.Store.Db.{Db, insert_job, insert_all}
use vahak.Store.Sqlite.Flush.{
  IngestItem, chunk_size, chunks, valid_jobs, ingest_job_row, job_chunk, run_chunks,
}

unfoldable pub concat {ℓ} : {A : Type ℓ} → List (List A) → List A
concat [] = []
concat (xs ∷ xss) = xs ++ concat xss

-- Enough fuel: the chunks are the whole batch, in order.
pub concat-chunks {ℓ} :
    {A : Type ℓ} (fuel : ℕ) (xs : List A) → length xs ≤ fuel → concat (chunks fuel xs) ≡ xs
unfolding concat chunks
concat-chunks fuel [] h = refl
concat-chunks zero (x ∷ xs) h = absurd (omega arith)
concat-chunks (suc fuel) (x ∷ xs) h =
    ap (λ rest. take chunk_size (x ∷ xs) ++ rest)
      (concat-chunks fuel (drop chunk_size (x ∷ xs))
        (omega (arith, length-drop chunk_size (x ∷ xs))))
    ∙ take-append-drop chunk_size (x ∷ xs)

pub insert_all-append {ℓ} :
    {A : Type ℓ} (insert : A → Db → Result Cause Db) (xs ys : List A) (db : Db)
    → insert_all insert (xs ++ ys) db ≡ (insert_all insert xs db >>= insert_all insert ys)
unfolding insert_all
insert_all-append insert [] ys db = refl
insert_all-append insert (x ∷ xs) ys db =
    >>=-cong (insert x db) _ _ (λ d. insert_all-append insert xs ys d)
    ∙ sym (>>=-assoc (insert x db) (insert_all insert xs) (insert_all insert ys))

valid_jobs-append :
    (xs ys : List IngestItem) → valid_jobs (xs ++ ys) ≡ valid_jobs xs ++ valid_jobs ys
unfolding valid_jobs
valid_jobs-append [] ys = refl
valid_jobs-append (x ∷ xs) ys = ground (arith, valid_jobs-append xs ys)

-- Statements for the chunks against one bulk statement.
module _ (statement : Option Cause → List IngestItem → Db → Result Cause Db)
    (bulk : List IngestItem → Db → Result Cause Db) (bulk-nil : (db : Db) → bulk [] db ≡ ok db)
    (bulk-append : (xs ys : List IngestItem) (db : Db)
      → bulk (xs ++ ys) db ≡ (bulk xs db >>= bulk ys))
    (statement-none : (xs : List IngestItem) (db : Db) → statement none xs db ≡ bulk xs db)
    (statement-ok : (fault : Option Cause) (xs : List IngestItem) (db db' : Db)
      → statement fault xs db ≡ ok db'
      → bulk xs db ≡ ok db') where
  pub run_chunks-none :
      (fault : ℕ → Option Cause) (i : ℕ) (parts : List (List IngestItem)) (db : Db)
      → ((k : ℕ) → fault k ≡ none)
      → run_chunks statement fault i parts db ≡ bulk (concat parts) db
  unfolding run_chunks concat
  run_chunks-none fault i [] db h = sym (bulk-nil db)
  run_chunks-none fault i (part ∷ parts) db h =
      ap (λ f. statement f part db >>= run_chunks statement fault (suc i) parts) (h i)
      ∙ ap (λ r. r >>= run_chunks statement fault (suc i) parts) (statement-none part db)
      ∙ >>=-cong (bulk part db) _ _ (λ d. run_chunks-none fault (suc i) parts d h)
      ∙ sym (bulk-append part (concat parts) db)

  pub run_chunks-ok :
      (fault : ℕ → Option Cause) (i : ℕ) (parts : List (List IngestItem)) (db : Db) {db' : Db}
      → run_chunks statement fault i parts db ≡ ok db'
      → bulk (concat parts) db ≡ ok db'
  unfolding run_chunks concat
  run_chunks-ok fault i [] db h = bulk-nil db ∙ h
  run_chunks-ok fault i (part ∷ parts) db h =
      let (mid, first, rest) = >>=-eq-ok (statement (fault i) part db) _ h in
      bulk-append part (concat parts) db
      ∙ ap (λ r. r >>= bulk (concat parts)) (statement-ok (fault i) part db mid first)
      ∙ run_chunks-ok fault (suc i) parts mid rest

unfoldable pub bulk_jobs : List IngestItem → Db → Result Cause Db
bulk_jobs items db = insert_all insert_job (map ingest_job_row (valid_jobs items)) db

bulk_jobs-append :
    (xs ys : List IngestItem) (db : Db)
    → bulk_jobs (xs ++ ys) db ≡ (bulk_jobs xs db >>= bulk_jobs ys)
unfolding bulk_jobs
bulk_jobs-append xs ys db =
    rw (valid_jobs-append xs ys, map-append) (insert_all-append insert_job _ _ db)

job_chunk-none : (xs : List IngestItem) (db : Db) → job_chunk none xs db ≡ bulk_jobs xs db
unfolding job_chunk bulk_jobs insert_all
job_chunk-none xs db = ground arith

job_chunk-ok :
    (fault : Option Cause) (xs : List IngestItem) (db db' : Db)
    → job_chunk fault xs db ≡ ok db'
    → bulk_jobs xs db ≡ ok db'
unfolding job_chunk bulk_jobs insert_all
job_chunk-ok fault xs db db' h = ground arith

bulk_jobs-nil : (db : Db) → bulk_jobs [] db ≡ ok db
unfolding bulk_jobs insert_all valid_jobs
bulk_jobs-nil db = refl

pub job_runs-none :
    (items : List IngestItem) (db : Db)
    → run_chunks job_chunk (λ _. none) 0 (chunks (length items) items) db ≡ bulk_jobs items db
job_runs-none items db =
    run_chunks-none job_chunk bulk_jobs bulk_jobs-nil bulk_jobs-append job_chunk-none job_chunk-ok
      (λ _. none) 0 (chunks (length items) items) db (λ _. refl)
    ∙ ap (λ xs. bulk_jobs xs db) (concat-chunks (length items) items (omega arith))

pub job_runs-ok :
    (fault : ℕ → Option Cause) (items : List IngestItem) (db db' : Db)
    → run_chunks job_chunk fault 0 (chunks (length items) items) db ≡ ok db'
    → bulk_jobs items db ≡ ok db'
job_runs-ok fault items db db' h =
    subst (λ xs. bulk_jobs xs db ≡ ok db') (concat-chunks (length items) items (omega arith))
      (run_chunks-ok job_chunk bulk_jobs bulk_jobs-nil bulk_jobs-append job_chunk-none job_chunk-ok
        fault 0 (chunks (length items) items) db h)

-- ===== src/Store/Sqlite/Reads.antt =====
-- What a reader finds in a table after a statement (internal/store/sqlite.go).
use vahak.Prelude.{
  none, subst, delete_where, sym, any, ◌==◌, ==_iff, ◌≡◌, ◌≢◌, refl, inl, inr, Bool, true, false,
  Option, some, List, [], ◌∷◌, ◌++◌, arith, any, find, select, update_where, has_key, Bool-cases,
}
use mathlib.Core.Bool.{false≢true}
use vahak.Models.{Uuid}
use vahak.Store.Error.{ok}
use vahak.Store.Db.{Db, JobRow, job_key}
use vahak.Store.Sqlite.{one_row}
use vahak.Store.Sqlite.Jobs.{elem}

abbrev pub job_at : Uuid → Db → Option JobRow
job_at id db = find (λ j. j.id == id) db.jobs

-- A row of the key that is looked for, in a table that an UPDATE of a row's other columns changed.
pub find-update_key :
    (k k' : Uuid) (f : JobRow → JobRow) (rows : List JobRow)
    → ((r : JobRow) → (f r).id ≡ r.id)
    → k ≢ k'
    → find (λ j. j.id == k) (update_where (λ j. j.id == k') f rows) ≡ find (λ j. j.id == k) rows
unfolding find update_where
find-update_key k k' f [] same ne = refl
find-update_key k k' f (r ∷ rows) same ne = elim (Bool-cases (r.id == k')) [
  | inl hit ↦ rw hit (ground (arith, ==_iff r.id k', same r, find-update_key k k' f rows same ne))
  | inr miss ↦ rw miss (ground (arith, find-update_key k k' f rows same ne))
]

pub find-update_self :
    (k : Uuid) (f : JobRow → JobRow) (rows : List JobRow)
    → ((r : JobRow) → (f r).id ≡ r.id)
    → has_key job_key k rows ≡ true
    → (r : JobRow) × (find (λ j. j.id == k) (update_where (λ j. j.id == k) f rows) ≡ some (f r))
unfolding find update_where any
find-update_self k f [] same h = absurd (false≢true h)
find-update_self k f (r ∷ rows) same h = elim (Bool-cases (r.id == k)) [
  | inl hit ↦ (r, rw hit (ground (arith, same r)))
  | inr miss ↦ let (x, e) = find-update_self k f rows same (ground arith) in (x, rw (miss, miss) e)
]

pub find-append_self :
    (rows : List JobRow) (r : JobRow)
    → has_key job_key r.id rows ≡ false
    → find (λ j. j.id == r.id) (rows ++ r ∷ []) ≡ some r
unfolding find any
find-append_self [] r h = ground arith
find-append_self (x ∷ rows) r h = ground (arith, find-append_self rows r)

pub find-append_other :
    (k : Uuid) (rows : List JobRow) (r : JobRow)
    → k ≢ r.id
    → find (λ j. j.id == k) (rows ++ r ∷ []) ≡ find (λ j. j.id == k) rows
unfolding find
find-append_other k [] r h = ground arith
find-append_other k (x ∷ rows) r h = ground (arith, find-append_other k rows r h)

pub one_row-select :
    {A : Type 0} (p : A → Bool) (rows : List A) (r : A)
    → one_row (select p rows) ≡ ok r
    → p r ≡ true
unfolding select
one_row-select p [] r h = cc
one_row-select p (x ∷ rows) r h = elim (Bool-cases (p x)) [
  | inl hit ↦ ground arith
  | inr miss ↦ one_row-select p rows r (ground arith)
]

-- Deleting rows with other keys.
pub find-delete_ids :
    (k : Uuid) (ids : List Uuid) (rows : List JobRow)
    → any (λ i. i == k) ids ≡ false
    → find (λ j. j.id == k) (delete_where (λ j. elem j.id ids) rows) ≡ find (λ j. j.id == k) rows
unfolding find delete_where
find-delete_ids k ids [] h = refl
find-delete_ids k ids (x ∷ rows) h = elim (Bool-cases (x.id == k)) [
  | inl same ↦
      let kept : elem x.id ids ≡ false =
        subst (λ i. elem i ids ≡ false) (sym ((==_iff x.id k).0 same)) h in
      rw (kept, same) refl
  | inr other ↦ ground (arith, find-delete_ids k ids rows h)
]

pub find-deleted :
    (k : Uuid) (ids : List Uuid) (rows : List JobRow)
    → elem k ids ≡ true
    → find (λ j. j.id == k) (delete_where (λ j. elem j.id ids) rows) ≡ none
unfolding find delete_where
find-deleted k ids [] h = refl
find-deleted k ids (x ∷ rows) h = elim (Bool-cases (x.id == k)) [
  | inl same ↦
      let taken : elem x.id ids ≡ true =
        subst (λ i. elem i ids ≡ true) (sym ((==_iff x.id k).0 same)) h in
      rw taken (find-deleted k ids rows h)
  | inr other ↦ ground (arith, find-deleted k ids rows h)
]

pub find-none :
    (k : Uuid) (rows : List JobRow)
    → find (λ j. j.id == k) rows ≡ none
    → has_key job_key k rows ≡ false
unfolding find any
find-none k [] h = refl
find-none k (x ∷ rows) h = ground (arith, find-none k rows)

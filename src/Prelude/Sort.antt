-- ===== src/Prelude/Sort.antt =====
-- ORDER BY and LIMIT. Rows with equal keys may come in any order from SQL; here they come in the
-- order of the table.
use Prim.Native.Nat.{ℕ, suc, ◌≤◌}
use mathlib.Core.Path.{◌≡◌, refl}
use mathlib.Core.Bool.{Bool, ◌||◌}
use mathlib.Core.Logic.{inl, inr}
use mathlib.Core.List.{List, [], ◌∷◌}
use native.Mathlib.Omega.{arith}
use vahak.Prelude.Tests.{leb, leb→le, if◌then◌else◌, Bool-cases}
use vahak.Prelude.Lists.{length}
use vahak.Prelude.Rows.{any, All, All-map}

module _ {ℓ} {A : Type ℓ} (key : A → ℕ) where
  unfoldable pub insert_by : A → List A → List A
  insert_by r [] = r ∷ []
  insert_by r (x ∷ rows) =
      let rest = insert_by r rows in if leb (key r) (key x) then r ∷ x ∷ rows else x ∷ rest

  -- ORDER BY key ASC.
  unfoldable pub sort_by : List A → List A
  sort_by [] = []
  sort_by (r ∷ rows) = insert_by r (sort_by rows)

  -- Each key is at most every key behind it.
  abbrev pub IsSortedBy : List A → Type 0
  IsSortedBy [] = Unit
  IsSortedBy (r ∷ rows) = (All (λ x. key r ≤ key x) rows) × IsSortedBy rows

  All-insert_by {κ} :
      (P : A → Type κ) (r : A) (rows : List A) → P r → All P rows → All P (insert_by r rows)
  unfolding insert_by
  All-insert_by P r [] h hs = (h, tt)
  All-insert_by P r (x ∷ rows) h hs = elim (Bool-cases (leb (key r) (key x))) [
    | inl below ↦ rw below (h, hs)
    | inr above ↦ rw above (hs.0, All-insert_by P r rows h hs.1)
  ]

  pub any-insert_by :
      (q : A → Bool) (r : A) (rows : List A) → any q (insert_by r rows) ≡ (q r || any q rows)
  unfolding insert_by any
  any-insert_by q r [] = refl
  any-insert_by q r (x ∷ rows) = ground (arith, any-insert_by q r rows)

  -- Sorting neither adds a row nor loses one, as a test sees it.
  pub any-sort_by : (q : A → Bool) (rows : List A) → any q (sort_by rows) ≡ any q rows
  unfolding sort_by any
  any-sort_by q [] = refl
  any-sort_by q (r ∷ rows) = ground (arith, any-insert_by q r (sort_by rows), any-sort_by q rows)

  length-insert_by : (r : A) (rows : List A) → length (insert_by r rows) ≡ suc (length rows)
  unfolding insert_by
  length-insert_by r [] = refl
  length-insert_by r (x ∷ rows) = ground (arith, length-insert_by r rows)

  pub length-sort_by : (rows : List A) → length (sort_by rows) ≡ length rows
  unfolding sort_by
  length-sort_by [] = refl
  length-sort_by (r ∷ rows) = omega (arith, length-insert_by r (sort_by rows), length-sort_by rows)

  insert_by-IsSortedBy : (r : A) (rows : List A) → IsSortedBy rows → IsSortedBy (insert_by r rows)
  unfolding insert_by
  insert_by-IsSortedBy r [] s = (tt, tt)
  insert_by-IsSortedBy r (x ∷ rows) s = elim (Bool-cases (leb (key r) (key x))) [
    | inl below ↦
        let le : key r ≤ key x = leb→le (key r) (key x) below in
        rw below ((le, All-map (λ y. key x ≤ key y) _ rows (λ y h. omega arith) s.0), s)
    | inr above ↦ rw above (
      All-insert_by (λ y. key x ≤ key y) r rows (ground arith) s.0,
      insert_by-IsSortedBy r rows s.1,
    )
  ]

  pub sort_by-IsSortedBy : (rows : List A) → IsSortedBy (sort_by rows)
  unfolding sort_by
  sort_by-IsSortedBy [] = tt
  sort_by-IsSortedBy (r ∷ rows) = insert_by-IsSortedBy r (sort_by rows) (sort_by-IsSortedBy rows)

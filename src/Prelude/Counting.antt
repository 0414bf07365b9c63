-- ===== src/Prelude/Counting.antt =====
-- How many rows of a table with a primary key have a key among those of a list.
use Prim.Native.Nat.{ℕ, zero, suc, ◌+◌, ◌≤◌}
use mathlib.Core.Path.{◌≡◌, refl, sym, ap, ap₂, subst, ◌∙◌}
use mathlib.Core.Logic.{inl, inr}
use mathlib.Core.Bool.{Bool, true, false, ◌||◌}
use mathlib.Core.List.{List, [], ◌∷◌}
use native.Mathlib.Omega.{arith}
use vahak.Prelude.Tests.{leb, ◌==◌, ==_iff, Bool-cases}
use vahak.Prelude.Lists.{length, take}
use vahak.Prelude.Rows.{
  any, any-take, any-false, any-select, any-and_false, select, update_where, All,
}
use vahak.Prelude.Keys.{has_key, UniqueBy}
use vahak.Prelude.Sort.{insert_by, sort_by, any-insert_by, any-sort_by}

module _ {ℓ} {A : Type ℓ} where
  length-select_or :
      (p q : A → Bool) (rows : List A)
      → ((r : A) → p r ≡ true → q r ≡ false)
      → length (select (λ r. p r || q r) rows) ≡ length (select p rows) + length (select q rows)
  unfolding select
  length-select_or p q [] h = omega arith
  length-select_or p q (r ∷ rows) h = ground (arith, h r, length-select_or p q rows h)

  length-select-false :
      (p : A → Bool) (rows : List A) → any p rows ≡ false → length (select p rows) ≡ 0
  unfolding select any
  length-select-false p [] h = refl
  length-select-false p (r ∷ rows) h = ground (arith, length-select-false p rows)

  pub length-select_update :
      (p q : A → Bool) (f : A → A) (rows : List A)
      → ((r : A) → p (f r) ≡ p r)
      → length (select p (update_where q f rows)) ≡ length (select p rows)
  unfolding select update_where
  length-select_update p q f [] h = refl
  length-select_update p q f (r ∷ rows) h = ground (arith, h r, length-select_update p q f rows h)

  pub take_all : (n : ℕ) (rows : List A) → length rows ≤ n → take n rows ≡ rows
  take_all zero [] h = refl
  take_all zero (r ∷ rows) h = absurd (omega arith)
  take_all (suc n) [] h = refl
  take_all (suc n) (r ∷ rows) h = ap (λ rest. r ∷ rest) (take_all n rows (omega arith))

module _ {ℓ} {A : Type ℓ} (key : A → ℕ) where
  has_key_flip : (k : ℕ) (rows : List A) → any (λ r. k == key r) rows ≡ has_key key k rows
  unfolding any
  has_key_flip k [] = refl
  has_key_flip k (r ∷ rows) = ground (arith, has_key_flip k rows)

  length-select_key :
      (k : ℕ) (rows : List A)
      → UniqueBy key rows
      → has_key key k rows ≡ true
      → length (select (λ r. k == key r) rows) ≡ 1
  unfolding select any
  length-select_key k [] u h = cc
  length-select_key k (r ∷ rows) u h =
      let rest : (k ≡ key r) → length (select (λ x. k == key x) rows) ≡ 0 = λ e.
        length-select-false (λ x. k == key x) rows
          (has_key_flip k rows ∙ subst (λ j. has_key key j rows ≡ false) (sym e) u.0) in
      elim (Bool-cases (k == key r)) [
        | inl same ↦ rw same (ap suc (rest ((==_iff k (key r)).0 same)))
        | inr differs ↦ rw differs (length-select_key k rows u.1 (ground arith))
      ]

  -- Every listed key is some row's, and no key is listed twice.
  pub length-select-has_key :
      (listed rows : List A)
      → UniqueBy key listed
      → UniqueBy key rows
      → All (λ s. has_key key (key s) rows ≡ true) listed
      → length (select (λ r. has_key key (key r) listed) rows) ≡ length listed
  unfolding any
  length-select-has_key [] rows u v h =
      length-select-false (λ _. false) rows (any-false (λ _. false) rows (λ _. refl))
  length-select-has_key (s ∷ listed) rows u v h =
      length-select_or (λ r. key s == key r) (λ r. has_key key (key r) listed) rows
        (λ r e. subst (λ k. has_key key k listed ≡ false) ((==_iff (key s) (key r)).0 e) u.0)
      ∙ ap₂ (λ (a b : ℕ). a + b) (length-select_key (key s) rows v h.0)
          (length-select-has_key listed rows u.1 v h.1)
      ∙ omega arith

  pub UniqueBy-select :
      (p : A → Bool) (rows : List A) → UniqueBy key rows → UniqueBy key (select p rows)
  unfolding select
  UniqueBy-select p [] u = tt
  UniqueBy-select p (r ∷ rows) u = elim (Bool-cases (p r)) [
    | inl hit ↦ rw hit (
      any-select p (λ x. key x == key r) rows ∙ any-and_false p (λ x. key x == key r) rows u.0,
      UniqueBy-select p rows u.1,
    )
    | inr miss ↦ rw miss (UniqueBy-select p rows u.1)
  ]

  UniqueBy-insert_by :
      (by : A → ℕ) (r : A) (rows : List A)
      → has_key key (key r) rows ≡ false
      → UniqueBy key rows
      → UniqueBy key (insert_by by r rows)
  unfolding insert_by any
  UniqueBy-insert_by by r [] h u = (h, tt)
  UniqueBy-insert_by by r (x ∷ rows) h u = elim (Bool-cases (leb (by r) (by x))) [
    | inl below ↦ rw below (h, u)
    | inr above ↦ rw above (
      any-insert_by by (λ y. key y == key x) r rows ∙ ground arith,
      UniqueBy-insert_by by r rows (ground arith) u.1,
    )
  ]

  pub UniqueBy-sort_by :
      (by : A → ℕ) (rows : List A) → UniqueBy key rows → UniqueBy key (sort_by by rows)
  unfolding sort_by
  UniqueBy-sort_by by [] u = tt
  UniqueBy-sort_by by (r ∷ rows) u =
      UniqueBy-insert_by by r (sort_by by rows) (any-sort_by by (λ x. key x == key r) rows ∙ u.0)
        (UniqueBy-sort_by by rows u.1)

  pub UniqueBy-take : (n : ℕ) (rows : List A) → UniqueBy key rows → UniqueBy key (take n rows)
  UniqueBy-take zero rows u = tt
  UniqueBy-take (suc n) [] u = tt
  UniqueBy-take (suc n) (r ∷ rows) u = elim (Bool-cases (has_key key (key r) (take n rows))) [
    | inl clash ↦ cc (any-take (λ x. key x == key r) n rows clash)
    | inr fresh ↦ (fresh, UniqueBy-take n rows u.1)
  ]

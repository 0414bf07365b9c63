-- ===== src/Prelude/Rows.antt =====
-- A table as the list of its rows, and what the WHERE clauses of SQL do to it.
use Prim.Native.Nat.{ℕ, zero, suc}
use mathlib.Core.Path.{◌≡◌, refl, sym, subst, ap, ◌∙◌}
use mathlib.Core.Logic.{inl, inr}
use mathlib.Core.Bool.{false≢true, Bool, true, false, not, ◌&&◌, ◌||◌}
use mathlib.Core.Option.{Option, none, some}
use mathlib.Core.List.{List, [], ◌∷◌, ◌++◌, Memᴰ}
use native.Mathlib.Omega.{arith}
use vahak.Prelude.Tests.{Bool-cases, if◌then◌else◌}
use vahak.Prelude.Lists.{take}

-- A predicate that holds of each row.
abbrev pub All {ℓ κ} : {A : Type ℓ} → (A → Type κ) → List A → Type κ
All P [] = Unit
All P (r ∷ rows) = P r × All P rows

module _ {ℓ} {A : Type ℓ} where
  unfoldable pub any : (A → Bool) → List A → Bool
  any p [] = false
  any p (r ∷ rows) = p r || any p rows

  -- The first row that passes.
  unfoldable pub find : (A → Bool) → List A → Option A
  find p [] = none
  find p (r ∷ rows) = if p r then some r else find p rows

  -- SELECT … WHERE.
  unfoldable pub select : (A → Bool) → List A → List A
  select p [] = []
  select p (r ∷ rows) = let rest = select p rows in if p r then r ∷ rest else rest

  -- DELETE … WHERE.
  unfoldable pub delete_where : (A → Bool) → List A → List A
  delete_where p [] = []
  delete_where p (r ∷ rows) = let rest = delete_where p rows in if p r then rest else r ∷ rest

  -- UPDATE … SET … WHERE.
  unfoldable pub update_where : (A → Bool) → (A → A) → List A → List A
  update_where p f [] = []
  update_where p f (r ∷ rows) = (if p r then f r else r) ∷ update_where p f rows

  pub any-append : (p : A → Bool) (xs ys : List A) → any p (xs ++ ys) ≡ (any p xs || any p ys)
  unfolding any
  any-append p [] ys = refl
  any-append p (x ∷ xs) ys = ground (arith, any-append p xs ys)

  pub any-delete_where :
      (p q : A → Bool) (rows : List A)
      → any q (delete_where p rows) ≡ any (λ r. not (p r) && q r) rows
  unfolding any delete_where
  any-delete_where p q [] = refl
  any-delete_where p q (r ∷ rows) = ground (arith, any-delete_where p q rows)

  pub any-split :
      (p q : A → Bool) (rows : List A)
      → any q rows ≡ (any (λ r. not (p r) && q r) rows || any (λ r. p r && q r) rows)
  unfolding any
  any-split p q [] = refl
  any-split p q (r ∷ rows) = ground (arith, any-split p q rows)

  pub any-update_where :
      (p q : A → Bool) (f : A → A) (rows : List A)
      → ((r : A) → q (f r) ≡ q r)
      → any q (update_where p f rows) ≡ any q rows
  unfolding any update_where
  any-update_where p q f [] h = refl
  any-update_where p q f (r ∷ rows) h = ground (arith, h r, any-update_where p q f rows h)

  module _ {κ} (P : A → Type κ) where
    pub All-append : (xs ys : List A) → All P xs → All P ys → All P (xs ++ ys)
    All-append [] ys hx hy = hy
    All-append (x ∷ xs) ys hx hy = (hx.0, All-append xs ys hx.1 hy)

    pub All-mem : {a : A} {rows : List A} → All P rows → Memᴰ a rows → P a
    All-mem h (Memᴰ.head e) = subst P (sym e) h.0
    All-mem h (Memᴰ.tail m) = All-mem h.1 m

    pub All-map : (Q : A → Type κ) (rows : List A) → ((r : A) → P r → Q r) → All P rows → All Q rows
    All-map Q [] f h = tt
    All-map Q (r ∷ rows) f h = (f r h.0, All-map Q rows f h.1)

    pub All-update_where :
        (p : A → Bool) (f : A → A) (rows : List A)
        → ((r : A) → P r → P (f r))
        → All P rows
        → All P (update_where p f rows)
    unfolding update_where
    All-update_where p f [] g h = tt
    All-update_where p f (r ∷ rows) g h = ground (arith, g r h.0, All-update_where p f rows g h.1)

  -- A row that fails the test of a DELETE stays.
  pub mem-delete_where :
      (p : A → Bool) {a : A} {rows : List A}
      → Memᴰ a rows
      → p a ≡ false
      → Memᴰ a (delete_where p rows)
  unfolding delete_where
  mem-delete_where p (Memᴰ.head {x = r} e) h = rw (ap p (sym e) ∙ h) (Memᴰ.head e)
  mem-delete_where p (Memᴰ.tail {x = r} m) h = elim (Bool-cases (p r)) [
    | inl gone ↦ rw gone (mem-delete_where p m h)
    | inr kept ↦ rw kept (Memᴰ.tail (mem-delete_where p m h))
  ]

  -- A test that a row passes is passed by some row.
  pub any-of_mem :
      (p : A → Bool) {a : A} {rows : List A} → Memᴰ a rows → p a ≡ true → any p rows ≡ true
  unfolding any
  any-of_mem p (Memᴰ.head {x = r} e) h = let hit : p r ≡ true = ap p (sym e) ∙ h in rw hit
  any-of_mem p (Memᴰ.tail m) h = ground (arith, any-of_mem p m h)

  pub mem-of_any :
      (p : A → Bool) (rows : List A) → any p rows ≡ true → (r : A) × Memᴰ r rows × (p r ≡ true)
  unfolding any
  mem-of_any p [] h = absurd (false≢true h)
  mem-of_any p (x ∷ rows) h = elim (Bool-cases (p x)) [
    | inl hit ↦ (x, Memᴰ.head refl, hit)
    | inr miss ↦ let (r, m, e) = mem-of_any p rows (ground (arith, miss, h)) in (r, Memᴰ.tail m, e)
  ]

  pub any-select :
      (p q : A → Bool) (rows : List A) → any q (select p rows) ≡ any (λ r. p r && q r) rows
  unfolding any select
  any-select p q [] = refl
  any-select p q (r ∷ rows) = ground (arith, any-select p q rows)

  pub any-take :
      (q : A → Bool) (n : ℕ) (rows : List A) → any q (take n rows) ≡ true → any q rows ≡ true
  unfolding any
  any-take q zero rows h = cc
  any-take q (suc n) [] h = h
  any-take q (suc n) (r ∷ rows) h = ground (arith, any-take q n rows)

  mem-select_head :
      (p : A → Bool) {a : A} (r : A) (rows : List A)
      → p r ≡ true
      → Memᴰ a (r ∷ select p rows)
      → (Memᴰ a (select p rows) → Memᴰ a rows × (p a ≡ true))
      → Memᴰ a (r ∷ rows) × (p a ≡ true)
  mem-select_head p r rows hit (Memᴰ.head e) rest = (Memᴰ.head e, ap p e ∙ hit)
  mem-select_head p r rows hit (Memᴰ.tail m) rest = (Memᴰ.tail (rest m).0, (rest m).1)

  -- A row that is selected stands in the table, and passes the test.
  pub mem-select :
      (p : A → Bool) {a : A} (rows : List A) → Memᴰ a (select p rows) → Memᴰ a rows × (p a ≡ true)
  unfolding select
  mem-select p [] m = elim m [ ]
  mem-select p {a} (r ∷ rows) m = elim (Bool-cases (p r)) [
    | inl hit ↦
        mem-select_head p r rows hit
          (subst (λ b. Memᴰ a (if b then r ∷ select p rows else select p rows)) hit m)
          (mem-select p rows)
    | inr miss ↦
        let (there, passed) =
          mem-select p rows
            (subst (λ b. Memᴰ a (if b then r ∷ select p rows else select p rows)) miss m) in
        (Memᴰ.tail there, passed)
  ]

  pub All-of_mem {κ} : (P : A → Type κ) (rows : List A) → ((a : A) → Memᴰ a rows → P a) → All P rows
  All-of_mem P [] h = tt
  All-of_mem P (r ∷ rows) h = (h r (Memᴰ.head refl), All-of_mem P rows (λ a m. h a (Memᴰ.tail m)))

  pub any-weaken :
      (p q : A → Bool) (rows : List A) → any (λ r. p r && q r) rows ≡ true → any q rows ≡ true
  unfolding any
  any-weaken p q [] h = h
  any-weaken p q (r ∷ rows) h = ground (arith, any-weaken p q rows)

  pub any-and_false :
      (p q : A → Bool) (rows : List A) → any q rows ≡ false → any (λ r. p r && q r) rows ≡ false
  unfolding any
  any-and_false p q [] h = refl
  any-and_false p q (r ∷ rows) h = ground (arith, any-and_false p q rows)

  pub any-false : (p : A → Bool) (rows : List A) → ((r : A) → p r ≡ false) → any p rows ≡ false
  unfolding any
  any-false p [] h = refl
  any-false p (r ∷ rows) h = ground (arith, h r, any-false p rows h)

  -- The rows that a DELETE leaves satisfy what they did, and also fail its test.
  pub All-delete_where {κ} :
      (P Q : A → Type κ) (p : A → Bool) (rows : List A)
      → ((r : A) → P r → p r ≡ false → Q r)
      → All P rows
      → All Q (delete_where p rows)
  unfolding delete_where
  All-delete_where P Q p [] f h = tt
  All-delete_where P Q p (r ∷ rows) f h = elim (Bool-cases (p r)) [
    | inl gone ↦ rw gone (All-delete_where P Q p rows f h.1)
    | inr kept ↦ rw kept (f r h.0 kept, All-delete_where P Q p rows f h.1)
  ]

  pub All-trivial : (rows : List A) → All (λ _. Unit {0}) rows
  All-trivial [] = tt
  All-trivial (r ∷ rows) = (tt, All-trivial rows)

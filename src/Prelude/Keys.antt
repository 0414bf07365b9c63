-- ===== src/Prelude/Keys.antt =====
-- The primary key of a table.
use Prim.Native.Nat.{ℕ}
use mathlib.Core.Path.{◌≡◌, refl, sym, subst, ap, ◌∙◌}
use mathlib.Core.Logic.{inl, inr}
use mathlib.Core.Bool.{Bool, true, false, ◌&&◌}
use mathlib.Core.List.{List, [], ◌∷◌, ◌++◌, Memᴰ}
use native.Mathlib.Omega.{arith}
use vahak.Prelude.Tests.{◌==◌, ==_iff, Bool-cases, if◌then◌else◌}
use vahak.Prelude.Rows.{
  any, delete_where, update_where, any-append, any-update_where, any-of_mem, any-and_false,
}

module _ {ℓ} {A : Type ℓ} (key : A → ℕ) where
  abbrev pub has_key : ℕ → List A → Bool
  has_key k = any (λ r. key r == k)

  -- A primary key: no two rows have the same one.
  abbrev pub UniqueBy : List A → Type 0
  UniqueBy [] = Unit
  UniqueBy (r ∷ rows) = (has_key (key r) rows ≡ false) × UniqueBy rows

  pub UniqueBy-append :
      (rows : List A) (r : A)
      → UniqueBy rows
      → has_key (key r) rows ≡ false
      → UniqueBy (rows ++ r ∷ [])
  unfolding any
  UniqueBy-append [] r u h = (refl, tt)
  UniqueBy-append (x ∷ rows) r u h =
      ground (arith, UniqueBy-append rows r u.1, any-append (λ y. key y == key x) rows (r ∷ []))

  has_key-delete_where :
      (k : ℕ) (p : A → Bool) (rows : List A)
      → has_key k rows ≡ false
      → has_key k (delete_where p rows) ≡ false
  unfolding any delete_where
  has_key-delete_where k p [] h = refl
  has_key-delete_where k p (r ∷ rows) h = ground (arith, has_key-delete_where k p rows)

  pub UniqueBy-delete_where :
      (p : A → Bool) (rows : List A) → UniqueBy rows → UniqueBy (delete_where p rows)
  unfolding delete_where
  UniqueBy-delete_where p [] u = tt
  UniqueBy-delete_where p (r ∷ rows) u =
      ground (arith, UniqueBy-delete_where p rows u.1, has_key-delete_where (key r) p rows)

  pub UniqueBy-update_where :
      (p : A → Bool) (f : A → A) (rows : List A)
      → ((r : A) → key (f r) ≡ key r)
      → UniqueBy rows
      → UniqueBy (update_where p f rows)
  unfolding update_where
  UniqueBy-update_where p f [] h u = tt
  UniqueBy-update_where p f (r ∷ rows) h u =
      let same : key (if p r then f r else r) ≡ key r = ground (arith, h r) in
      rw same (
        any-update_where p (λ y. key y == key r) f rows (λ y. ap (λ k. k == key r) (h y)) ∙ u.0,
        UniqueBy-update_where p f rows h u.1,
      )

  -- In a table with a primary key, a test that the row with the key of `a` passes is passed by `a`.
  pub UniqueBy-pick :
      (p : A → Bool) {a : A} (rows : List A)
      → UniqueBy rows
      → Memᴰ a rows
      → any (λ r. p r && key r == key a) rows ≡ true
      → p a ≡ true
  unfolding any
  UniqueBy-pick p [] u m h = elim m [ ]
  UniqueBy-pick p (r ∷ rows) u (Memᴰ.head e) h =
      let here : any (λ x. p x && key x == key r) (r ∷ rows) ≡ true =
        subst (λ y. any (λ x. p x && key x == key y) (r ∷ rows) ≡ true) e h in
      subst (λ y. p y ≡ true) (sym e)
        (ground (arith, here, any-and_false p (λ x. key x == key r) rows u.0))
  UniqueBy-pick p {a} (r ∷ rows) u (Memᴰ.tail m) h = elim (Bool-cases (key r == key a)) [
    | inl same ↦
        let found : has_key (key a) rows ≡ true =
          any-of_mem (λ x. key x == key a) m ((==_iff (key a) (key a)).1 refl) in
        let clash : has_key (key a) rows ≡ false =
          subst (λ k. has_key k rows ≡ false) ((==_iff (key r) (key a)).0 same) u.0 in
        cc
    | inr differs ↦ UniqueBy-pick p rows u.1 m (ground arith)
  ]

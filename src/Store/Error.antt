-- ===== src/Store/Error.antt =====
-- The errors of internal/store. `fmt.Errorf("Op: %w", err)` is `wrapped "Op" err`, and `bare` is an
-- error that is passed on as it is.
use vahak.Prelude.{String, Option, none, some, ◌≡◌, refl, ◌⊎◌, inl, inr}

-- What a driver, a constraint or a codec reports. `driver` is any failure of the database engine
-- (busy, cancelled, input or output); `db_closed` and the like are not told apart.
pub data Cause : Type 0 where
  unique_violation foreign_key_violation no_rows driver codec : Cause

pub data Error : Type 0 where
  wrapped : String → Cause → Error
  bare : Cause → Error

pub data Result {ℓ} (E : Type 0) (A : Type ℓ) : Type ℓ where
  ok : A → Result E A
  err : E → Result E A

infixl 5 ◌>>=◌
abbrev pub ◌>>=◌ {ℓ κ} :
    {E : Type 0} {A : Type ℓ} {B : Type κ} → Result E A → (A → Result E B) → Result E B
ok a >>= f = f a
err e >>= f = err e

abbrev pub wrap {ℓ} : {A : Type ℓ} → String → Result Cause A → Result Error A
wrap op (ok a) = ok a
wrap op (err c) = err (wrapped op c)

-- A statement that the driver refuses with a cause of its own does nothing.
abbrev pub exec {ℓ} : {A : Type ℓ} → Option Cause → Result Cause A → Result Cause A
exec none r = r
exec (some c) r = err c

-- The tables after a statement, and what the method returns.
abbrev pub commit {ℓ κ} :
    {D : Type ℓ} {A : Type κ} → D → String → Result Cause D → A → D × Result Error A
commit db op (ok db') a = (db', ok a)
commit db op (err c) a = (db, err (wrapped op c))

pub ok-injective {ℓ} :
    {E : Type 0} {A : Type ℓ} {a b : A} → ◌≡◌ {A = Result E A} (ok a) (ok b) → a ≡ b
ok-injective h = cc

pub >>=-eq-ok {ℓ κ} :
    {E : Type 0} {A : Type ℓ} {B : Type κ} (first : Result E A) (next : A → Result E B) {b : B}
    → (first >>= next) ≡ ok b
    → (mid : A) × (first ≡ ok mid) × (next mid ≡ ok b)
>>=-eq-ok (err e) next h = cc
>>=-eq-ok (ok mid) next h = (mid, refl, h)

pub >>=-assoc {ℓ κ μ} :
    {E : Type 0} {A : Type ℓ} {B : Type κ} {C : Type μ} (m : Result E A) (f : A → Result E B)
    (g : B → Result E C)
    → ((m >>= f) >>= g) ≡ (m >>= λ a. f a >>= g)
>>=-assoc (ok a) f g = refl
>>=-assoc (err e) f g = refl

pub >>=-cong {ℓ κ} :
    {E : Type 0} {A : Type ℓ} {B : Type κ} (m : Result E A) (f g : A → Result E B)
    → ((a : A) → f a ≡ g a)
    → (m >>= f) ≡ (m >>= g)
>>=-cong (ok a) f g h = h a
>>=-cong (err e) f g h = refl

pub Result-cases {ℓ} :
    {E : Type 0} {A : Type ℓ} (m : Result E A) → ((a : A) × (m ≡ ok a)) ⊎ ((e : E) × (m ≡ err e))
Result-cases (ok a) = inl (a, refl)
Result-cases (err e) = inr (e, refl)

pub wrap-ok {ℓ} :
    {A : Type ℓ} (op : String) (r : Result Cause A) {a : A} → wrap op r ≡ ok a → r ≡ ok a
wrap-ok op (ok b) h = cc
wrap-ok op (err c) h = cc

pub exec-ok {ℓ} :
    {A : Type ℓ} (fault : Option Cause) (r : Result Cause A) {a : A}
    → exec fault r ≡ ok a
    → r ≡ ok a
exec-ok none r h = h
exec-ok (some c) r h = cc

-- ===== src/Circuit/Cooldown.antt =====
-- The cooldown of an open circuit (internal/forwarder/circuit.go, Allow).
use vahak.Prelude.{ℕ, zero, suc, ◌-◌, ◌*◌, ◌^◌, ◌≤◌, min, ◌≡◌, arith}
use native.Mathlib.Nat.{pow-suc}
use vahak.Circuit.{cb_cooldown, cb_max_cooldown, cooldown_loop, cooldown_after}

one-le-pow : (r : ℕ) → 1 ≤ 2 ^ r
one-le-pow zero = omega arith
one-le-pow (suc r) = grind (arith, one-le-pow r)

double-pow : (c r : ℕ) → c * 2 * 2 ^ r ≡ c * 2 ^ suc r
double-pow c r = rw (pow-suc 2 r) (omega arith)

le-mul-pow : (c r : ℕ) → c ≤ c * 2 ^ r
le-mul-pow c r = grind (arith, one-le-pow r)

min-cooldown_loop :
    (rounds c : ℕ)
    → min (cooldown_loop rounds c) cb_max_cooldown ≡ min (c * 2 ^ rounds) cb_max_cooldown
unfolding cooldown_loop
min-cooldown_loop zero c = omega arith
min-cooldown_loop (suc rounds) c =
    ground (arith, min-cooldown_loop rounds (c * 2), double-pow c rounds, le-mul-pow c (suc rounds))

-- The cooldown after the k-th trip in a row is 30 s doubled k - 1 times, cut off at five minutes.
pub cooldown_after-eq : (k : ℕ) → cooldown_after k ≡ min (cb_cooldown * 2 ^ (k - 1)) cb_max_cooldown
unfolding cooldown_after
cooldown_after-eq k = ground (arith, min-cooldown_loop (k - 1) cb_cooldown)

pub cooldown_after_bounds :
    (k : ℕ) → (cb_cooldown ≤ cooldown_after k) × (cooldown_after k ≤ cb_max_cooldown)
cooldown_after_bounds k = omega (arith, cooldown_after-eq k, le-mul-pow cb_cooldown (k - 1))

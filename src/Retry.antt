-- ===== src/Retry.antt =====
-- internal/forwarder/retry.go. `base` is a float64 that holds whole nanoseconds exactly; the
-- truncated product `rand.Float64() * base` is the parameter `jitter`.
use native.Mathlib.Nat.{pow-suc}
use vahak.Prelude.{ℕ, zero, suc, ◌+◌, ◌-◌, ◌*◌, ◌^◌, ◌≤◌, ◌<◌, min, ◌≡◌, arith, ltb, if◌then◌else◌}
use vahak.Models.{Time, second, minute}

abbrev pub max_attempts : ℕ
max_attempts = 6

abbrev pub initial_backoff : ℕ
initial_backoff = 4

abbrev pub max_backoff : ℕ
max_backoff = 30 * minute

-- The loop over `i < attempts-1`, by the rounds that are left.
backoff_loop : ℕ → ℕ → ℕ
backoff_loop zero base = base
backoff_loop (suc rounds) base =
    let grown = base * initial_backoff in
    backoff_loop rounds (if ltb max_backoff grown then max_backoff else grown)

pub backoff_base : ℕ → ℕ
backoff_base attempts = backoff_loop (attempts - 1) (initial_backoff * second)

unfoldable pub calculate_next_attempt : (ℕ → ℕ) → Time → ℕ → Time
calculate_next_attempt jitter now attempts = now + jitter (backoff_base attempts)

one-le-pow : (r : ℕ) → 1 ≤ 4 ^ r
one-le-pow zero = omega arith
one-le-pow (suc r) = grind (arith, one-le-pow r)

grown-pow : (base r : ℕ) → base * 4 * 4 ^ r ≡ base * 4 ^ suc r
grown-pow base r = rw (pow-suc 4 r) (omega arith)

le-mul-pow : (base r : ℕ) → base ≤ base * 4 ^ r
le-mul-pow base r = grind (arith, one-le-pow r)

backoff_loop-eq :
    (rounds base : ℕ)
    → base ≤ max_backoff
    → 0 < base
    → backoff_loop rounds base ≡ min (base * 4 ^ rounds) max_backoff
unfolding backoff_loop
backoff_loop-eq zero base h p = omega arith
backoff_loop-eq (suc rounds) base h p = ground (
  arith,
  backoff_loop-eq rounds (base * 4),
  backoff_loop-eq rounds max_backoff,
  le-mul-pow max_backoff rounds,
  le-mul-pow (base * 4) rounds,
  grown-pow base rounds,
)

-- The jitter is drawn below this: 4^attempts seconds, cut off at thirty minutes.
backoff_base-eq :
    (attempts : ℕ) → 1 ≤ attempts → backoff_base attempts ≡ min (second * 4 ^ attempts) max_backoff
unfolding backoff_base
backoff_base-eq zero h = absurd (omega arith)
backoff_base-eq (suc a) h =
    let e : suc a - 1 ≡ a = omega arith in
    rw e (
      omega (arith, backoff_loop-eq a (4 * second) (omega arith) (omega arith), grown-pow second a))

pow-below_max : (attempts : ℕ) → attempts < max_attempts → second * 4 ^ attempts ≤ 1024 * second
pow-below_max zero h = omega arith
pow-below_max (suc zero) h = omega arith
pow-below_max (suc (suc zero)) h = omega arith
pow-below_max (suc (suc (suc zero))) h = omega arith
pow-below_max (suc (suc (suc (suc zero)))) h = omega arith
pow-below_max (suc (suc (suc (suc (suc zero))))) h = omega arith
pow-below_max (suc (suc (suc (suc (suc (suc a)))))) h = absurd (omega arith)

-- With a jitter that is at most the base it scales, the next attempt after at least one failed
-- attempt lies between now and 4^attempts seconds later, and never more than thirty minutes later.
-- For the attempts after which a retry is scheduled at all (fewer than `max_attempts`) the cap is
-- not reached: the base is exactly 4^attempts seconds.
pub next_attempt_bounds :
    (jitter : ℕ → ℕ) (now : Time) (attempts : ℕ)
    → ((base : ℕ) → jitter base ≤ base)
    → 1 ≤ attempts
    → (now ≤ calculate_next_attempt jitter now attempts)
      × (calculate_next_attempt jitter now attempts ≤ now + second * 4 ^ attempts)
      × (calculate_next_attempt jitter now attempts ≤ now + max_backoff)
      × (attempts < max_attempts → backoff_base attempts ≡ second * 4 ^ attempts)
unfolding calculate_next_attempt
next_attempt_bounds jitter now attempts h one =
    ground (arith, h (backoff_base attempts), backoff_base-eq attempts one, pow-below_max attempts)

-- ===== src/Circuit/Probe.antt =====
-- How a breaker trips, cools down and probes (internal/forwarder/circuit.go).
use vahak.Prelude.{
  ℕ, ◌+◌, ◌-◌, ◌*◌, ◌^◌, ◌≤◌, ◌<◌, min, ◌≡◌, refl, ◌≢◌, true, false, List, [], ◌∷◌, arith, map,
  length, if◌then◌else◌,
}
use vahak.Models.{Time}
use vahak.Circuit.{
  circuit_closed, circuit_open, circuit_half_open, CircuitBreaker, cb_threshold, cb_cooldown,
  cb_max_cooldown, breaker_allow, breaker_failure,
}
use vahak.Circuit.Cooldown.{cooldown_after-eq}
use vahak.Circuit.Events.{failure, step, run}

-- How many of the calls of `Allow`, one after another with no result recorded, answer yes.
pub granted : CircuitBreaker → List Time → ℕ
granted cb [] = 0
granted cb (now ∷ times) =
    let (answer, cb') = breaker_allow cb now in (if answer then 1 else 0) + granted cb' times

granted-half_open :
    (cb : CircuitBreaker) (times : List Time) → cb.state ≡ circuit_half_open → granted cb times ≡ 0
unfolding granted breaker_allow
granted-half_open cb [] h = refl
granted-half_open cb (now ∷ times) h = ground (arith, granted-half_open cb times h)

-- A breaker that is not closed lets at most one request through until a result is recorded, and
-- none if its probe is already out, whenever the calls come.
pub one_probe :
    (cb : CircuitBreaker) (times : List Time)
    → cb.state ≢ circuit_closed
    → (granted cb times ≤ 1) × (cb.state ≡ circuit_half_open → granted cb times ≡ 0)
unfolding granted breaker_allow
one_probe cb [] h = (omega arith, λ _. refl)
one_probe cb (now ∷ times) h = ground (
  arith,
  one_probe cb times h,
  granted-half_open cb times,
  granted-half_open (record cb { state = circuit_half_open }) times,
)

failures-run_open :
    (cb : CircuitBreaker) (times : List Time)
    → cb.state ≡ circuit_open
    → let after = run cb (map failure times) in
      (after.failures ≡ cb.failures + length times)
      × (after.state ≡ circuit_open)
      × (after.trip_count ≡ cb.trip_count)
unfolding run step breaker_failure
failures-run_open cb [] h = (omega arith, h, refl)
failures-run_open cb (t ∷ times) h = ground (arith, failures-run_open (step cb (failure t)) times)

-- Failures one after another on a closed breaker: it stays closed, with all of them counted, while
-- the count is below the threshold; once the count reaches the threshold it is open with one trip
-- on record, however many more failures come.
pub failures_trip :
    (cb : CircuitBreaker) (times : List Time)
    → cb.state ≡ circuit_closed
    → cb.failures < cb_threshold
    → let after = run cb (map failure times) in
      (after.failures ≡ cb.failures + length times)
      × (cb.failures + length times < cb_threshold → after.state ≡ circuit_closed)
      × (cb_threshold ≤ cb.failures + length times
          → (after.state ≡ circuit_open) × (after.trip_count ≡ 1))
unfolding run step breaker_failure
failures_trip cb [] h k = ground arith
failures_trip cb (t ∷ times) h k = ground (
  arith,
  failures_trip (step cb (failure t)) times,
  failures-run_open (step cb (failure t)) times,
)

-- The cooldown after the given number of trips in a row: 30 s doubled for each trip but the first,
-- cut off at five minutes.
abbrev pub backoff : ℕ → ℕ
backoff k = min (cb_cooldown * 2 ^ (k - 1)) cb_max_cooldown

-- The probe of an open breaker fails at `t`: the breaker opens again with one more trip, and from
-- then on answers no, changing nothing, until the longer cooldown has passed, and yes as soon as
-- it has.
pub probe_failure_backs_off :
    (cb : CircuitBreaker) (now t u : Time)
    → cb.state ≡ circuit_open
    → (breaker_allow cb now).0 ≡ true
    → let again = breaker_failure (breaker_allow cb now).1 t in
      (again.state ≡ circuit_open)
      × (again.trip_count ≡ cb.trip_count + 1)
      × (u ≤ t + backoff (cb.trip_count + 1) → breaker_allow again u ≡ (false, again))
      × (t + backoff (cb.trip_count + 1) < u → (breaker_allow again u).0 ≡ true)
unfolding breaker_allow breaker_failure
probe_failure_backs_off cb now t u h yes_now = ground (arith, cooldown_after-eq (cb.trip_count + 1))

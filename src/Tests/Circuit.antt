-- ===== src/Tests/Circuit.antt =====
-- The circuit breaker and the backoff at concrete inputs.
use vahak.Prelude.{◌+◌, ◌*◌, ◌^◌, ◌-◌, ◌≤◌, ◌<◌, ◌≡◌, refl, false, [], ◌∷◌, map, arith, lookup}
use vahak.Models.{second}
use vahak.Circuit.{
  CircuitBreaker, circuit_open, new_breaker, new_circuit_manager, breaker_allow, breaker_failure,
  record_failure, breaker_of, cooldown_after, cooldown_loop,
}
use vahak.Circuit.Events.{run, failure, success, IsConsistent, run-new_IsConsistent}
use vahak.Circuit.Events
use vahak.Circuit.Manager.{manager_isolates}
use vahak.Circuit.Probe.{granted, one_probe, failures_trip, probe_failure_backs_off}
use vahak.Retry.{
  calculate_next_attempt, backoff_base, max_backoff, max_attempts, next_attempt_bounds,
}

abbrev tripped : CircuitBreaker
tripped = record { failures = 5; trip_count = 1; state = circuit_open; last_failure = 50 }

five_failures : run new_breaker (map failure (10 ∷ 20 ∷ 30 ∷ 40 ∷ 50 ∷ [])) ≡ tripped
unfolding run Events.step breaker_failure
five_failures = refl

run-new_IsConsistent_example : IsConsistent (run new_breaker (failure 1 ∷ success ∷ failure 9 ∷ []))
run-new_IsConsistent_example = run-new_IsConsistent (failure 1 ∷ success ∷ failure 9 ∷ [])

one_probe_example : granted tripped (60 ∷ 60 * second ∷ 61 * second ∷ []) ≤ 1
one_probe_example = (one_probe tripped (60 ∷ 60 * second ∷ 61 * second ∷ []) (λ e. cc)).0

failures_trip_example :
    (run new_breaker (map failure (1 ∷ 2 ∷ 3 ∷ 4 ∷ 5 ∷ 6 ∷ []))).state ≡ circuit_open
failures_trip_example =
    ((failures_trip new_breaker (1 ∷ 2 ∷ 3 ∷ 4 ∷ 5 ∷ 6 ∷ []) refl (omega arith)).2 (omega arith)).0

probe_failure_backs_off_example :
    breaker_allow
      (breaker_failure (breaker_allow tripped (40 * second)).1 (41 * second))
      (90 * second)
    ≡ (false, breaker_failure (breaker_allow tripped (40 * second)).1 (41 * second))
unfolding breaker_allow cooldown_after cooldown_loop
probe_failure_backs_off_example =
    (probe_failure_backs_off tripped (40 * second) (41 * second) (90 * second) refl refl).2
      (omega arith)

manager_isolates_run :
    breaker_of (record_failure new_circuit_manager "http://a" 7) "http://b" ≡ new_breaker
unfolding lookup
manager_isolates_run = (manager_isolates new_circuit_manager "http://a" "http://b" 7).3

next_attempt_bounds_example :
    (9 ≤ calculate_next_attempt (λ base. base - 1) 9 3)
    × (calculate_next_attempt (λ base. base - 1) 9 3 ≤ 9 + second * 4 ^ 3)
    × (calculate_next_attempt (λ base. base - 1) 9 3 ≤ 9 + max_backoff)
    × (3 < max_attempts → backoff_base 3 ≡ second * 4 ^ 3)
next_attempt_bounds_example =
    next_attempt_bounds (λ base. base - 1) 9 3 (λ base. omega arith) (omega arith)

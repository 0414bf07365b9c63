-- ===== src/Circuit/Events.antt =====
-- What holds of one breaker over every sequence of calls (internal/forwarder/circuit.go).
use vahak.Prelude.{◌+◌, ◌≤◌, ◌<◌, ◌≡◌, ◌≢◌, List, [], ◌∷◌, arith}
use vahak.Models.{Time}
use vahak.Circuit.{
  circuit_closed, CircuitBreaker, new_breaker, cb_threshold, breaker_allow, breaker_success,
  breaker_failure,
}

pub data Event : Type 0 where
  allow : Time → Event
  success : Event
  failure : Time → Event

unfoldable pub step : CircuitBreaker → Event → CircuitBreaker
step cb (allow now) = (breaker_allow cb now).1
step cb success = breaker_success cb
step cb (failure now) = breaker_failure cb now

unfoldable pub run : CircuitBreaker → List Event → CircuitBreaker
run cb [] = cb
run cb (e ∷ es) = run (step cb e) es

-- A closed breaker is below the threshold and has no trip on record; any other has tripped, and
-- each further trip took a further failure.
pub record IsConsistent (cb : CircuitBreaker) : Type 0 where
  pub below : cb.state ≡ circuit_closed → cb.failures < cb_threshold
  pub untripped : cb.state ≡ circuit_closed → cb.trip_count ≡ 0
  pub tripped : cb.state ≢ circuit_closed → 1 ≤ cb.trip_count
  pub counted : cb.state ≢ circuit_closed → cb.trip_count + 4 ≤ cb.failures

step-IsConsistent : (cb : CircuitBreaker) (e : Event) → IsConsistent cb → IsConsistent (step cb e)
unfolding step breaker_allow breaker_success breaker_failure
step-IsConsistent cb (allow now) h = ground arith
step-IsConsistent cb success h = ground arith
step-IsConsistent cb (failure now) h = ground arith

run-IsConsistent :
    (cb : CircuitBreaker) (es : List Event) → IsConsistent cb → IsConsistent (run cb es)
unfolding run
run-IsConsistent cb [] h = h
run-IsConsistent cb (e ∷ es) h = run-IsConsistent (step cb e) es (step-IsConsistent cb e h)

-- After any calls in any order on a new breaker: while it is closed it has counted fewer failures
-- than the threshold and has no trip on record; while it is open or half-open it has tripped at
-- least once, and has counted at least four failures more than trips.
pub run-new_IsConsistent : (es : List Event) → IsConsistent (run new_breaker es)
run-new_IsConsistent es = run-IsConsistent new_breaker es (ground arith)

-- ===== src/Circuit.antt =====
-- internal/forwarder/circuit.go. A method that mutates `*circuitBreaker` under its lock returns
-- the new record; `clockNow()` is an argument. `Sub` of a later instant is negative in the source
-- and 0 here: both are below every cooldown.
pub mod Cooldown
pub mod Events
pub mod Manager
pub mod Probe
use vahak.Prelude.{
  ℕ, zero, suc, ◌+◌, ◌-◌, ◌*◌, String, Bool, true, false, Option, none, some, List, [], ◌∷◌, ltb,
  leb, if◌then◌else◌, lookup, insert, string_eq,
}
use vahak.Models.{Time, second, minute}

abbrev pub cb_threshold : ℕ
cb_threshold = 5

abbrev pub cb_cooldown : ℕ
cb_cooldown = 30 * second

abbrev pub cb_max_cooldown : ℕ
cb_max_cooldown = 5 * minute

pub data CircuitState : Type 0 where
  circuit_closed circuit_open circuit_half_open : CircuitState

pub record CircuitBreaker : Type 0 where
  pub failures : ℕ
  pub trip_count : ℕ
  pub state : CircuitState
  pub last_failure : Time

-- `&circuitBreaker{}`.
abbrev pub new_breaker : CircuitBreaker
new_breaker = record { failures = 0; trip_count = 0; state = circuit_closed; last_failure = 0 }

-- The loop of `Allow`, over the rounds that `i < cb.tripCount` leaves.
unfoldable pub cooldown_loop : ℕ → ℕ → ℕ
cooldown_loop zero cooldown = cooldown
cooldown_loop (suc rounds) cooldown =
    let rest = cooldown_loop rounds (cooldown * 2) in
    if ltb cooldown cb_max_cooldown then rest else cooldown

unfoldable pub cooldown_after : ℕ → ℕ
cooldown_after trip_count =
    let cooldown = cooldown_loop (trip_count - 1) cb_cooldown in
    if ltb cb_max_cooldown cooldown then cb_max_cooldown else cooldown

allow_in : CircuitState → CircuitBreaker → Time → Bool × CircuitBreaker
allow_in circuit_closed cb now = (true, cb)
allow_in circuit_open cb now =
    if ltb (cooldown_after cb.trip_count) (now - cb.last_failure)
    then (true, record cb { state = circuit_half_open })
    else (false, cb)
allow_in circuit_half_open cb now = (false, cb)

unfoldable pub breaker_allow : CircuitBreaker → Time → Bool × CircuitBreaker
unfolding allow_in
breaker_allow cb now = allow_in cb.state cb now

unfoldable pub breaker_success : CircuitBreaker → CircuitBreaker
breaker_success cb = record cb { failures = 0; trip_count = 0; state = circuit_closed }

-- `cb` has its failure counted and dated already.
failure_in : CircuitState → CircuitBreaker → CircuitBreaker
failure_in circuit_half_open cb = record cb { state = circuit_open; trip_count = cb.trip_count + 1 }
failure_in circuit_closed cb =
    if leb cb_threshold cb.failures then record cb { state = circuit_open; trip_count = 1 } else cb
failure_in circuit_open cb = cb

unfoldable pub breaker_failure : CircuitBreaker → Time → CircuitBreaker
unfolding failure_in
breaker_failure cb now =
    failure_in cb.state (record cb { failures = cb.failures + 1; last_failure = now })

-- `breakers` is the sync.Map; a `*circuitBreaker` in it is shared, so a change is stored back.
pub record CircuitManager : Type 0 where
  pub breakers : List (String × CircuitBreaker)

abbrev pub new_circuit_manager : CircuitManager
new_circuit_manager = record { breakers = [] }

-- `get`: LoadOrStore of a new breaker.
unfoldable pub get : CircuitManager → String → CircuitBreaker × CircuitManager
get cm target_url = elim (lookup target_url cm.breakers) [
  | none ↦ (new_breaker, record { breakers = insert target_url new_breaker cm.breakers })
  | some cb ↦ (cb, cm)
]

abbrev put : CircuitManager → String → CircuitBreaker → CircuitManager
put cm target_url cb = record { breakers = insert target_url cb cm.breakers }

unfoldable pub allow : CircuitManager → String → Time → Bool × CircuitManager
allow cm target_url now =
    let (cb, cm') = get cm target_url in
    let (answer, cb') = breaker_allow cb now in (answer, put cm' target_url cb')

unfoldable pub record_success : CircuitManager → String → CircuitManager
record_success cm target_url =
    let (cb, cm') = get cm target_url in put cm' target_url (breaker_success cb)

unfoldable pub record_failure : CircuitManager → String → Time → CircuitManager
record_failure cm target_url now =
    let (cb, cm') = get cm target_url in put cm' target_url (breaker_failure cb now)

abbrev pub or_new : Option CircuitBreaker → CircuitBreaker
or_new none = new_breaker
or_new (some cb) = cb

-- The breaker that a call for `target_url` works on.
abbrev pub breaker_of : CircuitManager → String → CircuitBreaker
breaker_of cm target_url = or_new (lookup target_url cm.breakers)

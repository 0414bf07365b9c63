-- ===== src/Circuit/Manager.antt =====
-- The manager keeps one breaker for each target URL (internal/forwarder/circuit.go).
use vahak.Prelude.{
  String, Bool, true, false, ◌≡◌, refl, Option, some, arith, ap, ◌∙◌, Option-cases, inl, inr,
  if◌then◌else◌, str_eq, eq_iff, lookup, lookup-insert, string_eq,
}
use vahak.Models.{Time}
use vahak.Circuit.{
  CircuitBreaker, new_breaker, CircuitManager, or_new, get, put, allow, record_success,
  record_failure, breaker_of, breaker_allow, breaker_success, breaker_failure,
}

get-breaker_of : (cm : CircuitManager) (url : String) → (get cm url).0 ≡ breaker_of cm url
unfolding get
get-breaker_of cm url = ground arith

or_new-if :
    (b : Bool) (cb : CircuitBreaker) (o : Option CircuitBreaker)
    → or_new (if b then some cb else o) ≡ (if b then cb else or_new o)
or_new-if true cb o = refl
or_new-if false cb o = refl

breaker_of-put :
    (cm : CircuitManager) (url other_url : String) (cb : CircuitBreaker)
    → breaker_of (put cm url cb) other_url
      ≡ (if str_eq url other_url then cb else breaker_of cm other_url)
breaker_of-put cm url other_url cb =
    ap or_new (lookup-insert url other_url cb cm.breakers)
    ∙ or_new-if (str_eq url other_url) cb (lookup other_url cm.breakers)

-- LoadOrStore of a new breaker changes no breaker that can be seen.
breaker_of-get :
    (cm : CircuitManager) (url other_url : String)
    → breaker_of (get cm url).1 other_url ≡ breaker_of cm other_url
unfolding get
breaker_of-get cm url other_url = elim (Option-cases (lookup url cm.breakers)) [
  | inl fresh ↦ ground (arith, breaker_of-put cm url other_url new_breaker, eq_iff url other_url)
  | inr (cb, known) ↦ ground arith
]

breaker_of-put-get :
    (cm : CircuitManager) (url other_url : String) (cb : CircuitBreaker)
    → breaker_of (put (get cm url).1 url cb) other_url
      ≡ (if str_eq url other_url then cb else breaker_of cm other_url)
breaker_of-put-get cm url other_url cb =
    rw (← breaker_of-get cm url other_url) (breaker_of-put (get cm url).1 url other_url cb)

-- Each call of the manager answers as the breaker of its own URL does, leaves that breaker as the
-- breaker's method does, and leaves the breaker of every other URL as it was.
pub manager_isolates :
    (cm : CircuitManager) (url other_url : String) (now : Time)
    → ((allow cm url now).0 ≡ (breaker_allow (breaker_of cm url) now).0)
      × (breaker_of (allow cm url now).1 other_url ≡ (
          if str_eq url other_url
          then (breaker_allow (breaker_of cm url) now).1
          else breaker_of cm other_url))
      × (breaker_of (record_success cm url) other_url ≡ (
          if str_eq url other_url
          then breaker_success (breaker_of cm url)
          else breaker_of cm other_url))
      × (breaker_of (record_failure cm url now) other_url ≡ (
          if str_eq url other_url
          then breaker_failure (breaker_of cm url) now
          else breaker_of cm other_url))
unfolding allow record_success record_failure
manager_isolates cm url other_url now = rw (← get-breaker_of cm url) (
  refl,
  breaker_of-put-get cm url other_url _,
  breaker_of-put-get cm url other_url _,
  breaker_of-put-get cm url other_url _,
)

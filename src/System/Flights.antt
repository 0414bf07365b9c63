-- ===== src/System/Flights.antt =====
-- Calls of processJob that are on their way (internal/forwarder/forwarder.go).
use vahak.Prelude.{
  ℕ, zero, suc, ◌≡◌, ◌≢◌, refl, sym, inl, inr, Bool, false, ◌&&◌, ◌||◌, Option, none, some, List,
  [], ◌∷◌, arith, Bool-cases, any, ◌==◌, ==_iff,
}
use vahak.Models.{Uuid}
use vahak.Circuit.{allow}
use vahak.Store.Storage.{Storage}
use vahak.Forwarder.{Forwarder}
use vahak.Forwarder.Phases.{Flight, ready, answered, job_of, is_success, permitted, advance}
use vahak.Forwarder.Phases.Course.{is_won}
use vahak.System.{take_flight, put_flight}

-- A call for the job with that identifier has its 2xx, and has not recorded it yet.
abbrev pub is_winner : Uuid → Flight → Bool
is_winner k flight = is_success flight && (job_of flight).id == k

abbrev passes : (Flight → Bool) → Option Flight → Bool
passes p none = false
passes p (some x) = p x

any-put_flight :
    (p : Flight → Bool) (next : Option Flight) (xs : List Flight)
    → any p (put_flight next xs) ≡ (passes p next || any p xs)
unfolding any
any-put_flight p none xs = refl
any-put_flight p (some x) xs = refl

pub any-take_flight :
    (p : Flight → Bool) (n : ℕ) (xs : List Flight)
    → any p (put_flight (take_flight n xs).0 (take_flight n xs).1) ≡ any p xs
unfolding take_flight any
any-take_flight p n [] = refl
any-take_flight p zero (x ∷ xs) = refl
any-take_flight p (suc n) (x ∷ xs) =
    let (taken, rest) = take_flight n xs in
    ground (
      arith,
      any-take_flight p n xs,
      any-put_flight p taken rest,
      any-put_flight p taken (x ∷ rest),
    )

pub put_flight-unwon :
    (k : Uuid) (next : Option Flight) (others : List Flight)
    → is_won next ≡ false
    → any (is_winner k) others ≡ false
    → any (is_winner k) (put_flight next others) ≡ false
unfolding any
put_flight-unwon k none others a b = b
put_flight-unwon k (some x) others a b = ground (arith, a, b)

-- A call goes on for the job that it was started for.
pub advance-other :
    (storage : Storage) (k : Uuid) (flight : Flight) (f : Forwarder storage) (others : List Flight)
    → k ≢ (job_of flight).id
    → any (is_winner k) others ≡ false
    → any (is_winner k) (put_flight (advance storage flight f).1 others) ≡ false
unfolding advance permitted any
advance-other storage k (answered w job success) f others ne h = h
advance-other storage k (ready w job req) f others ne h =
    elim (Bool-cases (allow f.circuits job.target_url w.now).0) [
      | inl yes_now ↦
          rw yes_now (ground (arith, h, ==_iff job.id k, λ (e : job.id ≡ k). ne (sym e)))
      | inr not_now ↦ rw not_now h
    ]

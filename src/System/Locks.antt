-- ===== src/System/Locks.antt =====
-- `processing` and the calls of processJob that are on their way
-- (internal/forwarder/forwarder.go).
use vahak.Prelude.{
  ℕ, zero, suc, ◌≡◌, refl, sym, ap, ◌∙◌, Bool, true, false, Option, none, some, List, [], ◌∷◌,
  arith, any, has_key, UniqueBy, lookup, insert, erase, nat_eq, lookup-insert, lookup-erase, ◌==◌,
  ==_iff, if◌then◌else◌,
}
use vahak.Models.{Uuid}
use vahak.Forwarder.Phases.{Flight, job_of}
use vahak.System.{take_flight, put_flight}
use vahak.System.Flights.{any-take_flight}

abbrev pub flight_key : Flight → Uuid
flight_key flight = (job_of flight).id

-- A job is locked exactly while a call for it is on its way, and no two calls are for the same job.
pub record Locks (processing : List (Uuid × Bool)) (flights : List Flight) : Type 0 where
  pub locked :
      (k : Uuid) → lookup k processing ≡ (if has_key flight_key k flights then some true else none)
  pub unique : UniqueBy flight_key flights

pub Locks-nil : Locks [] []
unfolding lookup any
Locks-nil = record { locked = λ k. refl; unique = tt }

free_key :
    (p : List (Uuid × Bool)) (flights : List Flight) (k : Uuid)
    → Locks p flights
    → lookup k p ≡ none
    → has_key flight_key k flights ≡ false
free_key p flights k l h = ground (arith, l.locked k, h)

-- LoadOrStore of a new job, and its call begins.
pub Locks-insert :
    (p : List (Uuid × Bool)) (flights : List Flight) (flight : Flight)
    → Locks p flights
    → lookup (flight_key flight) p ≡ none
    → Locks (insert (flight_key flight) true p) (flight ∷ flights)
unfolding any
Locks-insert p flights flight l h = record {
  locked = λ k. ground (arith, lookup-insert (flight_key flight) k true p, l.locked k);
  unique = (free_key p flights (flight_key flight) l h, l.unique);
}

-- LoadOrStore of a new job, and its call returns at once.
pub Locks-release :
    (p : List (Uuid × Bool)) (flights : List Flight) (id : Uuid)
    → Locks p flights
    → lookup id p ≡ none
    → Locks (erase id (insert id true p)) flights
Locks-release p flights id l h = record {
  locked = λ k. ground (
    arith,
    lookup-erase id k (insert id true p),
    lookup-insert id k true p,
    l.locked k,
    h,
    ==_iff id k,
  );
  unique = l.unique;
}

-- The call ends.
pub Locks-erase :
    (p : List (Uuid × Bool)) (flights : List Flight) (flight : Flight)
    → Locks p (flight ∷ flights)
    → Locks (erase (flight_key flight) p) flights
unfolding any
Locks-erase p flights flight l = record {
  locked = λ k. ground (
    arith,
    lookup-erase (flight_key flight) k p,
    l.locked k,
    l.unique.0,
    ==_iff (flight_key flight) k,
  );
  unique = l.unique.1;
}

-- The call goes on, for the same job.
pub Locks-next :
    (p : List (Uuid × Bool)) (flights : List Flight) (flight next : Flight)
    → flight_key next ≡ flight_key flight
    → Locks p (flight ∷ flights)
    → Locks p (next ∷ flights)
unfolding any
Locks-next p flights flight next e l = record {
  locked = λ k. l.locked k ∙ ground (arith, e);
  unique = (ground (arith, e, l.unique.0), l.unique.1);
}

unique-put_flight :
    (x : Flight) (taken : Option Flight) (rest : List Flight)
    → has_key flight_key (flight_key x) (put_flight taken rest) ≡ false
    → UniqueBy flight_key (put_flight taken rest)
    → UniqueBy flight_key (put_flight taken (x ∷ rest))
unfolding any
unique-put_flight x none rest h u = (h, u)
unique-put_flight x (some y) rest h u = (
  ground
      (arith, h, u.0, ==_iff (flight_key x) (flight_key y), ==_iff (flight_key y) (flight_key x)),
  (ground (arith, h), u.1),
)

-- A call is taken out and put in front.
unique-take_flight :
    (n : ℕ) (flights : List Flight)
    → UniqueBy flight_key flights
    → UniqueBy flight_key (put_flight (take_flight n flights).0 (take_flight n flights).1)
unfolding take_flight any
unique-take_flight n [] u = tt
unique-take_flight zero (x ∷ xs) u = u
unique-take_flight (suc n) (x ∷ xs) u =
    unique-put_flight x (take_flight n xs).0 (take_flight n xs).1
      (any-take_flight (λ r. flight_key r == flight_key x) n xs ∙ u.0) (unique-take_flight n xs u.1)

pub Locks-take_flight :
    (p : List (Uuid × Bool)) (n : ℕ) (flights : List Flight)
    → Locks p flights
    → Locks p (put_flight (take_flight n flights).0 (take_flight n flights).1)
Locks-take_flight p n flights l = record {
  locked = λ k.
      l.locked k
      ∙ ap (λ b. if b then some true else none)
          (sym (any-take_flight (λ r. flight_key r == k) n flights));
  unique = unique-take_flight n flights l.unique;
}

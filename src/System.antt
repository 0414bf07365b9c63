-- ===== src/System.antt =====
-- The parts of the server together, over any engine: the store, the forwarder with its calls of
-- processJob and its channel of delivered jobs, and the flusher of internal/forwarder/forwarder.go.
-- The goroutines take turns in any order, a step at a time.
pub mod Flights
pub mod Locks
pub mod OneCall
pub mod Recovery
pub mod Landing
pub mod Delivery
pub mod Acknowledged
use vahak.Prelude.{ℕ, zero, suc, String, Option, none, some, List, [], ◌∷◌, ◌++◌}
use vahak.Models.{Uuid, Time, Request, DeliveryJob}
use vahak.Circuit.{new_circuit_manager}
use vahak.Store.Error.{Cause}
use vahak.Store.Engine.{Engine}
use vahak.Store.Sqlite.Flush.{IngestItem}
use vahak.Forwarder.{World, Forwarder}
use vahak.Forwarder.Phases.{Flight, start_job, advance}

-- The call with that number, and the others.
unfoldable pub take_flight : ℕ → List Flight → Option Flight × List Flight
take_flight n [] = (none, [])
take_flight zero (x ∷ xs) = (some x, xs)
take_flight (suc n) (x ∷ xs) = let (taken, rest) = take_flight n xs in (taken, x ∷ rest)

abbrev pub put_flight : Option Flight → List Flight → List Flight
put_flight none xs = xs
put_flight (some x) xs = x ∷ xs

module _ (engine : Engine) where
  open engine use {storage}

  -- What a goroutine may do. A worker may start processJob on any job, a copy of it that is out of
  -- date included, and the calls that have started go on in any order.
  pub data Step : Type 0 where
    creates_endpoint : Option Cause → Uuid → Time → String → String → String → Step
    updates_endpoint : Option Cause → Option Cause → Uuid → String → String → String → Step
    deletes_endpoint : Option Cause → Uuid → Step
    replays : Option Cause → Uuid → Time → Uuid → String → Step
    ingests : engine.Faults → List IngestItem → Step
    sweeps : Option Cause → Time → ℕ → ℕ → Step
    starts : World → DeliveryJob → Step
    goes_on : ℕ → Step
    collects : Step
    marks : Option Cause → Time → Step
    prunes : Option Cause → Option Cause → Time → ℕ → Step
    restarts : Step

  -- `flights` are the calls of processJob that have not ended, and `ids` is what the flusher has
  -- taken from the channel and not yet marked.
  pub record System : Type 0 where
    pub forwarder : Forwarder storage
    pub flights : List Flight
    pub ids : List Uuid

  abbrev pub store_of : System → storage.State
  store_of s = s.forwarder.store

  abbrev pub with_store : storage.State → System → System
  with_store st s = record s { forwarder = record s.forwarder { store = st } }

  unfoldable pub collect : List Uuid → System → System
  collect [] s = s
  collect (id ∷ ch) s = record s {
    forwarder = record s.forwarder { delivered_ch = ch };
    ids = s.ids ++ id ∷ [];
  }

  -- A new process finds the store, and nothing else.
  abbrev pub fresh_forwarder : Forwarder storage → Forwarder storage
  fresh_forwarder f = record {
    store = f.store;
    circuits = new_circuit_manager;
    processing = [];
    delivered_ch = [];
    sent = f.sent;
  }

  unfoldable pub landed : List Flight → Forwarder storage × Option Flight → System → System
  landed others (f, next) s = record s { forwarder = f; flights = put_flight next others }

  -- A step of the call that was taken out of the list.
  unfoldable pub fly : Option Flight × List Flight → System → System
  unfolding landed
  fly (none, others) s = s
  fly (some flight, others) s = landed others (advance storage flight s.forwarder) s

  unfoldable pub step : Step → System → System
  unfolding collect landed fly take_flight
  step (creates_endpoint fault id now name url script) s =
      with_store (storage.create_endpoint fault id now name url script (store_of s)).0 s
  step (updates_endpoint fault read_fault id name url script) s =
      with_store (storage.update_endpoint fault read_fault id name url script (store_of s)).0 s
  step (deletes_endpoint fault id) s =
      with_store (storage.delete_endpoint fault id (store_of s)).0 s
  step (replays fault id now request_id url) s =
      with_store (storage.create_delivery_job fault id now request_id url (store_of s)).0 s
  step (ingests faults items) s = with_store (engine.flush_batch faults items (store_of s)).0 s
  step (sweeps fault now lease limit) s =
      with_store (storage.claim_pending_jobs fault now lease limit (store_of s)).0 s
  step (starts w job) s = landed s.flights (start_job storage w job s.forwarder) s
  step (goes_on n) s = fly (take_flight n s.flights) s
  step collects s = collect s.forwarder.delivered_ch s
  step (marks fault now) s =
      record (with_store (storage.batch_mark_delivered fault now s.ids (store_of s)).0 s) {
        ids = [];
      }
  step (prunes requests_fault jobs_fault now days) s =
      with_store (engine.prune_expired requests_fault jobs_fault now days (store_of s)).0 s
  step restarts s = record { forwarder = fresh_forwarder s.forwarder; flights = []; ids = [] }

  unfoldable pub run : List Step → System → System
  run [] s = s
  run (e ∷ es) s = run es (step e s)

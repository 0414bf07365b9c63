-- ===== src/Forwarder/Phases.antt =====
-- processJob in the steps between which other goroutines may run (internal/forwarder/forwarder.go):
-- up to the breaker; the breaker and the delivery; and what is recorded of the answer.
pub mod Agrees
pub mod Course
pub mod Registry
use vahak.Prelude.{
  ◌≡◌, Bool, true, false, Option, none, some, List, [], ◌∷◌, ◌++◌, lookup, insert, erase, nat_eq,
  if◌then◌else◌,
}
use vahak.Models.{Uuid, Request, DeliveryJob}
use vahak.Circuit.{allow}
use vahak.Store.Storage.{Storage}
use vahak.Forwarder.Deliver.{deliver}
use vahak.Forwarder.{World, Forwarder, prepare, postponed, save, settle}

-- A call of processJob on its way: with the request that it will send, or with the answer, whether
-- that was a 2xx.
pub data Flight : Type 0 where
  ready : World → DeliveryJob → Request → Flight
  answered : World → DeliveryJob → Bool → Flight

abbrev pub job_of : Flight → DeliveryJob
job_of (ready w job req) = job
job_of (answered w job success) = job

-- The target has answered with a 2xx.
abbrev pub is_success : Flight → Bool
is_success (ready w job req) = false
is_success (answered w job success) = success

module _ (storage : Storage) where
  -- The deferred Delete.
  abbrev pub release : DeliveryJob → Forwarder storage → Forwarder storage
  release job f = record f { processing = erase job.id f.processing }

  unfoldable pub prepared :
      World → DeliveryJob → Option Request → Forwarder storage → Forwarder storage × Option Flight
  prepared w job none f = (release job f, none)
  prepared w job (some req) f = (f, some (ready w job req))

  unfoldable pub admitted :
      Option Bool → World → DeliveryJob → Forwarder storage → Forwarder storage × Option Flight
  unfolding prepared
  admitted (some b) w job f = (f, none)
  admitted none w job f =
      prepared w job (prepare storage w job f.store)
        (record f { processing = insert job.id true f.processing })

  -- LoadOrStore, and the request with its transformed body.
  unfoldable pub start_job :
      World → DeliveryJob → Forwarder storage → Forwarder storage × Option Flight
  unfolding admitted
  start_job w job f = admitted (lookup job.id f.processing) w job f

  -- The delivery, or the postponement if the breaker does not permit that.
  unfoldable pub permitted :
      Bool → World → DeliveryJob → Request → Forwarder storage → Forwarder storage × Option Flight
  permitted true w job req f =
      let (logged, success) = deliver w.http w.delivery_id job.target_url req in
      (record f { sent = logged ++ f.sent }, some (answered w job success))
  permitted false w job req f = (release job (save storage w w.now (postponed w job) f), none)

  unfoldable pub advance : Flight → Forwarder storage → Forwarder storage × Option Flight
  unfolding permitted settle
  advance (ready w job req) f =
      let (answer, circuits) = allow f.circuits job.target_url w.now in
      permitted answer w job req (record f { circuits = circuits })
  advance (answered w job success) f = (release job (settle storage w job success f), none)

  unfoldable pub finish : Forwarder storage × Option Flight → Forwarder storage
  unfolding advance
  finish (f, none) = f
  finish (f, some flight) = (advance flight f).0

  -- To the end, with nothing in between.
  unfoldable pub complete : Forwarder storage × Option Flight → Forwarder storage
  unfolding finish
  complete (f, none) = f
  complete (f, some flight) = finish (advance flight f)

-- ===== src/Forwarder/Phases/Registry.antt =====
-- What is recorded of an answer leaves `processing` alone (internal/forwarder/forwarder.go).
use vahak.Prelude.{◌≡◌, refl, inl, inr, Bool, true, false, ltb, length, Bool-cases}
use vahak.Models.{DeliveryJob}
use vahak.Circuit.{record_success}
use vahak.Store.Storage.{Storage}
use vahak.Forwarder.{World, Forwarder, on_delivered, delivered_cap, settle}

module _ (storage : Storage) where
  on_delivered-processing :
      (w : World) (job : DeliveryJob) (f : Forwarder storage)
      → (on_delivered storage w job f).processing ≡ f.processing
  unfolding on_delivered
  on_delivered-processing w job f = elim (Bool-cases job.persisted) [
    | inr memory ↦ rw memory refl
    | inl stored ↦ elim (Bool-cases (ltb (length f.delivered_ch) delivered_cap)) [
      | inl room ↦ rw (stored, room) refl
      | inr full ↦ rw (stored, full) refl
    ]
  ]

  pub settle-processing :
      (w : World) (job : DeliveryJob) (success : Bool) (f : Forwarder storage)
      → (settle storage w job success f).processing ≡ f.processing
  unfolding settle
  settle-processing w job false f = refl
  settle-processing w job true f =
      on_delivered-processing w job
        (record f { circuits = record_success f.circuits job.target_url })

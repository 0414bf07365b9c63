-- ===== src/Forwarder/Phases/Agrees.antt =====
-- The steps of processJob, one after the other (internal/forwarder/forwarder.go).
use vahak.Prelude.{
  ◌≡◌, refl, Bool, true, false, Option, none, some, lookup, insert, erase, nat_eq, if◌then◌else◌,
}
use vahak.Models.{Request, DeliveryJob}
use vahak.Circuit.{allow}
use vahak.Store.Storage.{Storage}
use vahak.Forwarder.{
  World, save, postponed, Forwarder, prepare, attempt, dispatch, body, process_job,
}
use vahak.Forwarder.Phases.{
  release, prepared, start_job, admitted, permitted, advance, finish, complete,
}

module _ (storage : Storage) where
  permitted-dispatch :
      (answer : Bool) (w : World) (job : DeliveryJob) (req : Request) (f : Forwarder storage)
      → finish storage (permitted storage answer w job req f)
        ≡ release storage job (
            if answer
            then attempt storage w job req f
            else save storage w w.now (postponed w job) f)
  unfolding finish permitted attempt advance
  permitted-dispatch true w job req f = refl
  permitted-dispatch false w job req f = refl

  prepared-body :
      (w : World) (job : DeliveryJob) (answer : Option Request) (f : Forwarder storage)
      → complete storage (prepared storage w job answer f)
        ≡ release storage job (elim answer [ none ↦ f | some req ↦ dispatch storage w job req f ])
  unfolding prepared complete dispatch advance
  prepared-body w job none f = refl
  prepared-body w job (some req) f =
      let (answer, circuits) = allow f.circuits job.target_url w.now in
      permitted-dispatch answer w job req (record f { circuits = circuits })

  admitted-process_job :
      (found : Option Bool) (w : World) (job : DeliveryJob) (f : Forwarder storage)
      → complete storage (admitted storage found w job f) ≡ (elim found [
        | some _ ↦ f
        | none ↦
            let g =
              body storage w job (record f { processing = insert job.id true f.processing }) in
            record g { processing = erase job.id g.processing }
      ])
  unfolding admitted body complete
  admitted-process_job (some b) w job f = refl
  admitted-process_job none w job f = prepared-body w job (prepare storage w job f.store) _

  -- If nothing runs in between, the steps of processJob make the call of processJob.
  pub complete-process_job :
      (w : World) (job : DeliveryJob) (f : Forwarder storage)
      → complete storage (start_job storage w job f) ≡ process_job storage w job f
  unfolding start_job process_job
  complete-process_job w job f = admitted-process_job (lookup job.id f.processing) w job f

-- ===== src/Forwarder/FirstWrite.antt =====
-- The first time that processJob writes a job which the store does not have yet, as those of the fast
-- mode are (internal/forwarder/forwarder.go).
use vahak.Prelude.{
  is_some, ◌≡◌, refl, sym, ap, ◌∙◌, inl, inr, Bool, true, Option, none, some, List, ◌∷◌, ◌++◌,
  Bool-cases, lookup, insert, nat_eq, arith,
}
use vahak.Models.{Uuid, Time, Request, DeliveryJob}
use vahak.Circuit.{allow, record_success}
use vahak.Store.Error.{Cause}
use vahak.Store.Storage.{Storage}
use vahak.Forwarder.Deliver.{OutgoingRequest, deliver, deliver-true}
use vahak.Forwarder.Survival.{after_failure-id, on_delivered-sent}
use vahak.Forwarder.{
  World, Forwarder, prepare, postponed, after_failure, save, settle, attempt, dispatch, body,
  process_job,
}

after_failure-request :
    (w : World) (job : DeliveryJob) → (after_failure w job).request_id ≡ job.request_id
unfolding after_failure
after_failure-request w job = ground arith

module _ (storage : Storage) where
  open storage use {State, job_at, has_request, save_delivery_job, save-fresh}

  -- The target took the request, or else the job is in the store exactly if its request is.
  pub data FirstWrite (job : DeliveryJob) (f g : Forwarder storage) : Type 0 where
    arrived :
        (out : OutgoingRequest)
        → g.sent ≡ (out, true) ∷ f.sent
        → out.url ≡ job.target_url
        → FirstWrite job f g
    kept : is_some (job_at job.id g.store) ≡ has_request job.request_id f.store → FirstWrite job f g

  save-FirstWrite :
      (w : World) (now : Time) (job saved : DeliveryJob) (f g : Forwarder storage)
      → w.save_fault ≡ none
      → saved.id ≡ job.id
      → saved.request_id ≡ job.request_id
      → g.store ≡ f.store
      → job_at job.id f.store ≡ none
      → FirstWrite job f (save storage w now saved g)
  save-FirstWrite w now job saved f g fine id request st absent =
      let there : job_at saved.id g.store ≡ none =
        ap (λ i. job_at i g.store) id ∙ ap (job_at job.id) st ∙ absent in
      let written = λ (c : Option Cause). (save_delivery_job c now saved g.store).0 in
      kept (
        ap (λ c. is_some (job_at job.id (written c))) fine
        ∙ ap (λ i. is_some (job_at i (written none))) (sym id)
        ∙ save-fresh now saved g.store there
        ∙ ap (λ i. has_request i g.store) request
        ∙ ap (has_request job.request_id) st)

  attempt-FirstWrite :
      (w : World) (job : DeliveryJob) (req : Request) (f g : Forwarder storage)
      → w.save_fault ≡ none
      → g.sent ≡ f.sent
      → g.store ≡ f.store
      → job_at job.id f.store ≡ none
      → FirstWrite job f (attempt storage w job req g)
  unfolding attempt settle
  attempt-FirstWrite w job req f g fine same st absent =
      elim (Bool-cases (deliver w.http w.delivery_id job.target_url req).1) [
        | inl success ↦
            let (out, logged, url) = deliver-true w.http w.delivery_id job.target_url req success in
            rw (success, settle)
              (arrived out
                (on_delivered-sent storage w job (record g {
                  circuits = record_success g.circuits job.target_url;
                  sent = (deliver w.http w.delivery_id job.target_url req).0 ++ g.sent;
                })
                  ∙ ap (λ l. l ++ g.sent) logged
                  ∙ ap (λ (l : List (OutgoingRequest × Bool)). (out, true) ∷ l) same)
                url)
        | inr failure ↦
            rw (failure, settle)
              (save-FirstWrite w w.finished job (after_failure w job) f _ fine
                (after_failure-id w job) (after_failure-request w job) st absent)
      ]

  dispatch-FirstWrite :
      (w : World) (job : DeliveryJob) (req : Request) (f g : Forwarder storage)
      → w.save_fault ≡ none
      → g.sent ≡ f.sent
      → g.store ≡ f.store
      → job_at job.id f.store ≡ none
      → FirstWrite job f (dispatch storage w job req g)
  unfolding dispatch
  dispatch-FirstWrite w job req f g fine same st absent =
      elim (Bool-cases (allow g.circuits job.target_url w.now).0) [
        | inl yes_now ↦ rw yes_now (attempt-FirstWrite w job req f _ fine same st absent)
        | inr not_now ↦
            rw not_now (save-FirstWrite w w.now job (postponed w job) f _ fine refl refl st absent)
      ]

  release-FirstWrite :
      (job : DeliveryJob) (f g : Forwarder storage) (processing : List (Uuid × Bool))
      → FirstWrite job f g
      → FirstWrite job f (record g { processing = processing })
  release-FirstWrite job f g processing (arrived out e u) = arrived out e u
  release-FirstWrite job f g processing (kept e) = kept e

  -- A job that the store does not have yet, and that processJob can prepare while nobody else
  -- processes it, comes to one of two things, with either engine, unless the driver refuses the
  -- write: its target takes the request with a 2xx; or, whether the circuit was open or the attempt
  -- failed, the store has the job afterwards exactly if it had the job's request before. A job of
  -- the fast mode that processJob takes up before the batch with its request is written is thus
  -- lost unless the first attempt succeeds, and kept if the batch has come first.
  pub process_job-FirstWrite :
      (w : World) (job : DeliveryJob) (req : Request) (f : Forwarder storage)
      → w.save_fault ≡ none
      → lookup job.id f.processing ≡ none
      → prepare storage w job f.store ≡ some req
      → job_at job.id f.store ≡ none
      → FirstWrite job f (process_job storage w job f)
  unfolding process_job body
  process_job-FirstWrite w job req f fine free ready absent =
      rw (free, process_job)
        (rw (ready, body)
          (release-FirstWrite job f _ _ (
            dispatch-FirstWrite w job req f
              (record f { processing = insert job.id true f.processing }) fine refl refl absent)))

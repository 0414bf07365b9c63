-- ===== src/Forwarder/Gate.antt =====
-- When processJob sends, and how it counts (internal/forwarder/forwarder.go).
use vahak.Prelude.{
  ◌≡◌, refl, sym, ap, ◌∙◌, inl, inr, String, Bool, true, false, none, some, List, ◌∷◌, ◌++◌, arith,
  Bool-cases, Option-cases, lookup, nat_eq,
}
use vahak.Models.{Uuid, Request, DeliveryJob}
use vahak.Circuit.{allow}
use vahak.Store.Error.{Result-cases}
use vahak.Store.Storage.{Storage}
use vahak.Forwarder.Deliver.{OutgoingRequest, outgoing, deliver, deliver-log}
use vahak.Forwarder.{
  World, Forwarder, load_request, transform_body, script_of, prepare, on_delivered, settle, attempt,
  dispatch, body, process_job,
}

transform_body-id :
    (w : World) (script : String) (req r : Request)
    → transform_body w script req ≡ some r
    → r.id ≡ req.id
unfolding transform_body
transform_body-id w script req r h = ground arith

module _ (storage : Storage) where
  open storage use {State, job_at, get_request, save_delivery_job, save-ok, get_request-id}

  load_request-id :
      (w : World) (job : DeliveryJob) (s : State) (req : Request)
      → load_request storage w job s ≡ some req
      → req.id ≡ job.request_id
  unfolding load_request
  load_request-id w job s req h =
      elim (Result-cases (get_request w.request_fault job.request_id s)) [
        | inl (r, e) ↦ ground (arith, get_request-id w.request_fault job.request_id s r e)
        | inr (c, e) ↦ ground arith
      ]

  prepare-id :
      (w : World) (job : DeliveryJob) (s : State) (req : Request)
      → prepare storage w job s ≡ some req
      → req.id ≡ job.request_id
  unfolding prepare
  prepare-id w job s req h = elim (Option-cases (load_request storage w job s)) [
    | inl nothing ↦ absurd (ground arith)
    | inr (loaded, e) ↦
        transform_body-id w (script_of storage w job loaded s) loaded req (rw (e, prepare) at h)
        ∙ load_request-id w job s loaded e
  ]

  -- One request was sent for the job, or none was.
  pub data Sends (w : World) (job : DeliveryJob) (f g : Forwarder storage) : Type 0 where
    silent : g.sent ≡ f.sent → Sends w job f g
    one :
        (req : Request) (success : Bool)
        → lookup job.id f.processing ≡ none
        → (allow f.circuits job.target_url w.now).0 ≡ true
        → req.id ≡ job.request_id
        → g.sent ≡ (outgoing w.http w.delivery_id job.target_url req, success) ∷ f.sent
        → Sends w job f g

  settle-sent :
      (w : World) (job : DeliveryJob) (success : Bool) (f : Forwarder storage)
      → (settle storage w job success f).sent ≡ f.sent
  unfolding settle on_delivered
  settle-sent w job true f = ground arith
  settle-sent w job false f = refl

  attempt-Sends :
      (w : World) (job : DeliveryJob) (req : Request) (f g : Forwarder storage)
      → g.sent ≡ f.sent
      → lookup job.id f.processing ≡ none
      → (allow f.circuits job.target_url w.now).0 ≡ true
      → req.id ≡ job.request_id
      → Sends w job f (attempt storage w job req g)
  unfolding attempt
  attempt-Sends w job req f g same free permitted e =
      let result = deliver w.http w.delivery_id job.target_url req in
      let sent = settle-sent w job result.1 (record g { sent = result.0 ++ g.sent }) in
      elim (deliver-log w.http w.delivery_id job.target_url req) [
        | inl quiet ↦ silent (sent ∙ ap (λ l. l ++ g.sent) quiet ∙ same)
        | inr (success, logged) ↦ one req success free permitted e (
            sent
            ∙ ap (λ l. l ++ g.sent) logged
            ∙ ap
                (λ (l : List (OutgoingRequest × Bool)).
                  (outgoing w.http w.delivery_id job.target_url req, success) ∷ l)
                same)
      ]

  dispatch-Sends :
      (w : World) (job : DeliveryJob) (req : Request) (f g : Forwarder storage)
      → g.sent ≡ f.sent
      → g.circuits ≡ f.circuits
      → lookup job.id f.processing ≡ none
      → req.id ≡ job.request_id
      → Sends w job f (dispatch storage w job req g)
  unfolding dispatch
  dispatch-Sends w job req f g same circuits free e =
      elim (Bool-cases (allow g.circuits job.target_url w.now).0) [
        | inl permitted ↦ rw permitted (
            attempt-Sends w job req f _ same free
              (ap (λ c. (allow c job.target_url w.now).0) (sym circuits) ∙ permitted) e)
        | inr refused ↦ rw refused (silent same)
      ]

  body-Sends :
      (w : World) (job : DeliveryJob) (f g : Forwarder storage)
      → g.sent ≡ f.sent
      → g.circuits ≡ f.circuits
      → lookup job.id f.processing ≡ none
      → Sends w job f (body storage w job g)
  unfolding body
  body-Sends w job f g same circuits free = elim (Option-cases (prepare storage w job g.store)) [
    | inl nothing ↦ rw (nothing, body) (silent same)
    | inr (req, ready) ↦
        rw (ready, body)
          (dispatch-Sends w job req f g same circuits free (prepare-id w job g.store req ready))
  ]

  release-Sends :
      (w : World) (job : DeliveryJob) (f g : Forwarder storage) (processing : List (Uuid × Bool))
      → Sends w job f g
      → Sends w job f (record g { processing = processing })
  release-Sends w job f g processing (silent e) = silent e
  release-Sends w job f g processing (one req s a b c e) = one req s a b c e

  -- A call of processJob sends at most one request. If it sends one, the job was not being
  -- processed, the circuit of its target said yes, and the request is the one that deliver builds
  -- for that target out of a request that carries the identifier of the job's request.
  pub process_job-Sends :
      (w : World) (job : DeliveryJob) (f : Forwarder storage)
      → Sends w job f (process_job storage w job f)
  unfolding process_job
  process_job-Sends w job f = elim (Option-cases (lookup job.id f.processing)) [
    | inl free ↦
        rw (free, process_job) (release-Sends w job f _ _ (body-Sends w job f _ refl refl free))
    | inr (b, busy) ↦ rw (busy, process_job) (silent refl)
  ]

-- ===== src/Forwarder.antt =====
-- internal/forwarder/forwarder.go: processJob, over any engine that keeps the Storage interface.
pub mod Deliver
pub mod Phases
pub mod Dialer
pub mod Survival
pub mod Others
pub mod Gate
pub mod Failure
pub mod FirstWrite
pub mod GivesUp
pub mod Sweep
pub mod Workers
pub mod Flusher
use vahak.Prelude.{
  is_some, ℕ, suc, ◌+◌, ◌*◌, ◌≡◌, String, Bool, true, false, not, ◌||◌, Option, none, some, List,
  [], ◌∷◌, ◌++◌, length, lookup, insert, erase, nat_eq, str_eq, leb, ltb, if◌then◌else◌,
}
use vahak.Models.{Uuid, Time, Header, second, Request, Endpoint, DeliveryJob, pending, failed}
use vahak.Circuit.{CircuitManager, allow, record_success, record_failure}
use vahak.Retry.{max_attempts, calculate_next_attempt}
use vahak.Store.Error.{Cause, Error, Result, ok, err}
use vahak.Store.Storage.{Storage}
use vahak.Forwarder.Deliver.{Http, OutgoingRequest, deliver}

abbrev pub delivered_cap : ℕ
delivered_cap = 10000

-- What the world answers in one call of processJob: the driver's refusals, the clock before and
-- after the delivery, the transformer, the network, and the random factor of the backoff.
pub record World : Type 0 where
  pub request_fault : Option Cause
  pub endpoint_fault : Option Cause
  pub save_fault : Option Cause
  pub mark_fault : Option Cause
  pub now : Time
  pub finished : Time
  pub transform : String → String → Option String
  pub http : Http
  pub delivery_id : String
  pub jitter : ℕ → ℕ

-- uuid.Nil, the endpoint of a request that is rebuilt from memory.
abbrev pub nil_uuid : Uuid
nil_uuid = 0

abbrev pub or_empty : Option Header → Header
or_empty none = []
or_empty (some h) = h

-- The request that the fast path carries in memory.
abbrev pub in_mem_request : DeliveryJob → Request
in_mem_request job = record {
  id = job.request_id;
  endpoint_id = nil_uuid;
  method = job.in_mem_method;
  headers = or_empty job.in_mem_headers;
  body = job.in_mem_body;
  source_ip = "";
  received_at = 0;
}

transform_body : World → String → Request → Option Request
transform_body w script req =
    if str_eq script "" then some req else elim (w.transform script req.body) [
      | none ↦ none
      | some body ↦ some (record req { body = body })
    ]

-- The circuit is open.
abbrev pub postponed : World → DeliveryJob → DeliveryJob
postponed w job = record job { status = pending; next_attempt = w.now + 30 * second }

-- The job after a failed attempt.
unfoldable pub after_failure : World → DeliveryJob → DeliveryJob
after_failure w job =
    let attempts = job.attempts + 1 in
    if leb max_attempts attempts
    then record job {
      attempts = attempts;
      last_attempt = some w.finished;
      status = failed;
      persisted = true;
    }
    else record job {
      attempts = attempts;
      last_attempt = some w.finished;
      status = pending;
      next_attempt = calculate_next_attempt w.jitter w.finished attempts;
      persisted = true;
    }

module _ (storage : Storage) where
  open storage use {State, get_request, get_endpoint, save_delivery_job, batch_mark_delivered}

  -- The forwarder's fields. `processing` is the sync.Map, `delivered_ch` the channel's content,
  -- and `sent` the requests that went out, the last one first, with whether a 2xx came back.
  pub record Forwarder : Type 0 where
    pub store : State
    pub circuits : CircuitManager
    pub processing : List (Uuid × Bool)
    pub delivered_ch : List Uuid
    pub sent : List (OutgoingRequest × Bool)

  load_request : World → DeliveryJob → State → Option Request
  load_request w job s =
      if not (str_eq job.in_mem_body "") || is_some job.in_mem_headers
      then some (in_mem_request job)
      else elim (get_request w.request_fault job.request_id s) [ ok r ↦ some r | err e ↦ none ]

  -- The script that the job carries, or else that of the request's endpoint, if it can be read.
  script_of : World → DeliveryJob → Request → State → String
  script_of w job req s =
      if str_eq job.in_mem_transformer_script ""
      then elim (get_endpoint w.endpoint_fault req.endpoint_id s) [
        | ok ep ↦ ep.transformer_script
        | err e ↦ ""
      ]
      else job.in_mem_transformer_script

  -- The request to deliver; `none` where processJob logs an error and returns.
  unfoldable pub prepare : World → DeliveryJob → State → Option Request
  unfolding load_request script_of transform_body
  prepare w job s = elim (load_request w job s) [
    | none ↦ none
    | some req ↦ transform_body w (script_of w job req s) req
  ]

  abbrev save : World → Time → DeliveryJob → Forwarder → Forwarder
  save w now job f = record f { store = (save_delivery_job w.save_fault now job f.store).0 }

  unfoldable pub on_delivered : World → DeliveryJob → Forwarder → Forwarder
  on_delivered w job f =
      if job.persisted
      then if ltb (length f.delivered_ch) delivered_cap
        then record f { delivered_ch = f.delivered_ch ++ job.id ∷ [] }
        else record f {
          store = (batch_mark_delivered w.mark_fault w.finished (job.id ∷ []) f.store).0;
        }
      else f

  -- From the delivery on, with the answer of the network.
  pub settle : World → DeliveryJob → Bool → Forwarder → Forwarder
  unfolding on_delivered after_failure
  settle w job true f =
      on_delivered w job (record f { circuits = record_success f.circuits job.target_url })
  settle w job false f =
      save w w.finished (after_failure w job)
        (record f { circuits = record_failure f.circuits job.target_url w.finished })

  attempt : World → DeliveryJob → Request → Forwarder → Forwarder
  unfolding settle
  attempt w job req f =
      let (logged, success) = deliver w.http w.delivery_id job.target_url req in
      settle w job success (record f { sent = logged ++ f.sent })

  dispatch : World → DeliveryJob → Request → Forwarder → Forwarder
  unfolding attempt
  dispatch w job req f =
      let (answer, circuits) = allow f.circuits job.target_url w.now in
      if answer
      then attempt w job req (record f { circuits = circuits })
      else save w w.now (postponed w job) (record f { circuits = circuits })

  body : World → DeliveryJob → Forwarder → Forwarder
  unfolding prepare dispatch
  body w job f = elim (prepare w job f.store) [ none ↦ f | some req ↦ dispatch w job req f ]

  -- A job that is in `processing` already is left to the call that put it there.
  unfoldable pub process_job : World → DeliveryJob → Forwarder → Forwarder
  unfolding body
  process_job w job f = elim (lookup job.id f.processing) [
    | some _ ↦ f
    | none ↦
        let g = body w job (record f { processing = insert job.id true f.processing }) in
        record g { processing = erase job.id g.processing }
  ]

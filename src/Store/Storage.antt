-- ===== src/Store/Storage.antt =====
-- internal/store/interface.go: what the forwarder and the
-- handlers use of an engine, with what it relies on. The
-- clock that an engine reads is an argument.
use vahak.Prelude.{
  true, is_some, none, Bool, ℕ, false, any, ◌==◌, String, ◌≡◌, ◌≢◌, Option, some, List,
}
use vahak.Models.{delivered, Uuid, Time, Request, Endpoint, DeliveryJob}
use vahak.Store.Error.{Cause, Error, Result, ok, err}
use vahak.Store.Db.{JobRow}

-- The row was written by a SaveDeliveryJob of the job.
pub record IsSaved (job : DeliveryJob) (row : JobRow) : Type 0 where
  pub saved_status : row.status ≡ job.status
  pub saved_attempts : row.attempts ≡ job.attempts
  pub saved_last : row.last_attempt ≡ job.last_attempt
  pub saved_next : row.next_attempt ≡ job.next_attempt

pub record Storage : Type 1 where
  pub State : Type 0
  pub get_request : Option Cause → Uuid → State → Result Error Request
  pub get_endpoint : Option Cause → Uuid → State → Result Error Endpoint
  pub create_endpoint :
      Option Cause → Uuid → Time → String → String → String → State → State × Result Error Endpoint
  pub list_endpoints : Option Cause → State → Result Error (List Endpoint)
  pub update_endpoint :
      Option Cause
      → Option Cause
      → Uuid
      → String
      → String
      → String
      → State
      → State × Result Error Endpoint
  pub delete_endpoint : Option Cause → Uuid → State → State × Result Error (Unit {0})
  pub get_requests_by_endpoint : Option Cause → Uuid → State → Result Error (List Request)
  pub create_delivery_job :
      Option Cause → Uuid → Time → Uuid → String → State → State × Result Error DeliveryJob
  pub claim_pending_jobs :
      Option Cause → Time → ℕ → ℕ → State → State × Result Error (List DeliveryJob)
  pub save_delivery_job :
      Option Cause → Time → DeliveryJob → State → State × Result Error (Unit {0})
  pub batch_mark_delivered :
      Option Cause → Time → List Uuid → State → State × Result Error (Unit {0})
  -- The row of a job, as a reader sees it, and whether a request is there.
  pub job_at : Uuid → State → Option JobRow
  pub has_request : Uuid → State → Bool
  pub get_request-id :
      (fault : Option Cause) (id : Uuid) (s : State) (r : Request)
      → get_request fault id s ≡ ok r
      → r.id ≡ id
  pub save-ok :
      (fault : Option Cause) (now : Time) (job : DeliveryJob) (s : State)
      → (save_delivery_job fault now job s).1 ≡ ok tt
      → (row : JobRow) × (job_at job.id (save_delivery_job fault now job s).0 ≡ some row)
        × IsSaved job row
  pub save-err :
      (fault : Option Cause) (now : Time) (job : DeliveryJob) (s : State) (e : Error)
      → (save_delivery_job fault now job s).1 ≡ err e
      → (save_delivery_job fault now job s).0 ≡ s
  pub save-other :
      (fault : Option Cause) (now : Time) (job : DeliveryJob) (s : State) (k : Uuid)
      → k ≢ job.id
      → job_at k (save_delivery_job fault now job s).0 ≡ job_at k s
  pub mark-other :
      (fault : Option Cause) (now : Time) (ids : List Uuid) (s : State) (k : Uuid)
      → any (λ i. i == k) ids ≡ false
      → job_at k (batch_mark_delivered fault now ids s).0 ≡ job_at k s
  -- A job that the store does not have yet is inserted only if its request is there.
  pub save-fresh :
      (now : Time) (job : DeliveryJob) (s : State)
      → job_at job.id s ≡ none
      → is_some (job_at job.id (save_delivery_job none now job s).0) ≡ has_request job.request_id s
  -- A job that is marked is not pending any more, if it is there at all.
  pub mark-done :
      (now : Time) (ids : List Uuid) (s : State) (k : Uuid) (row : JobRow)
      → any (λ i. i == k) ids ≡ true
      → job_at k (batch_mark_delivered none now ids s).0 ≡ some row
      → row.status ≡ delivered

-- ===== src/Api/Endpoints.antt =====
-- The other handlers of internal/api/handler.go: endpoints, captured requests, and replay. Each
-- answers from what the engine answers, and none of them touches the cache or the queue.
use vahak.Prelude.{String, ◌||◌, Option, none, some, str_eq, if◌then◌else◌}
use vahak.Models.{Uuid, Time, Endpoint, Request, DeliveryJob}
use vahak.Store.Error.{Cause, Error, Result, ok, err}
use vahak.Store.Storage.{Storage}
use vahak.Api.{
  Reply, write_json, write_error, endpoint_payload, endpoints_payload, requests_payload,
  status_payload,
}

-- The body of a POST; a field that is missing is empty.
pub record EndpointBody : Type 0 where
  pub name : String
  pub target_url : String
  pub transformer_script : String

module _ (storage : Storage) where
  open storage use {
    State, create_endpoint, list_endpoints, get_endpoint, get_requests_by_endpoint, get_request,
    create_delivery_job,
  }

  unfoldable pub finish_create : State × Result Error Endpoint → Reply × State
  finish_create (s, err e) = (write_error 500 "failed to create endpoint", s)
  finish_create (s, ok ep) = (write_json 201 (endpoint_payload ep), s)

  -- POST /endpoints; none is a body that cannot be decoded.
  unfoldable pub handle_create :
      Option Cause → Uuid → Time → Option EndpointBody → State → Reply × State
  unfolding finish_create
  handle_create fault id now none s = (write_error 400 "invalid request body", s)
  handle_create fault id now (some body) s =
      if str_eq body.target_url "" || str_eq body.name ""
      then (write_error 400 "target_url is required", s)
      else finish_create
          (create_endpoint fault id now body.name body.target_url body.transformer_script s)

  -- GET /endpoints.
  unfoldable pub handle_list : Option Cause → State → Reply
  handle_list fault s = elim (list_endpoints fault s) [
    | err e ↦ write_error 500 "failed to list endpoints"
    | ok endpoints ↦ write_json 200 (endpoints_payload endpoints)
  ]

  -- GET /endpoints/{id}.
  unfoldable pub handle_get : Option Cause → Option Uuid → State → Reply
  handle_get fault none s = write_error 400 "invalid endpoint id"
  handle_get fault (some id) s = elim (get_endpoint fault id s) [
    | err e ↦ write_error 502 "failed to get endpoint"
    | ok ep ↦ write_json 200 (endpoint_payload ep)
  ]

  -- GET /endpoints/{id}/requests.
  unfoldable pub handle_requests : Option Cause → Option Uuid → State → Reply
  handle_requests fault none s = write_error 400 "invalid endpoint id"
  handle_requests fault (some id) s = elim (get_requests_by_endpoint fault id s) [
    | err e ↦ write_error 500 "failed to get requests"
    | ok requests ↦ write_json 200 (requests_payload requests)
  ]

  unfoldable pub finish_replay : State × Result Error DeliveryJob → Reply × State
  finish_replay (s, err e) = (write_error 500 "failed to create delivery job", s)
  finish_replay (s, ok job) = (write_json 200 (status_payload "queued for replay"), s)

  unfoldable pub replay_to :
      Option Cause → Uuid → Time → Request → Result Error Endpoint → State → Reply × State
  unfolding finish_replay
  replay_to fault id now req (err e) s = (write_error 502 "failed to get endpoint", s)
  replay_to fault id now req (ok ep) s =
      finish_replay (create_delivery_job fault id now req.id ep.target_url s)

  -- POST /endpoints/{id}/replay/{request_id}. The faults are those of the three statements.
  unfoldable pub handle_replay :
      Option Cause → Option Cause → Option Cause → Uuid → Time → Option Uuid → State → Reply × State
  unfolding replay_to
  handle_replay read_fault endpoint_fault fault id now none s =
      (write_error 400 "invalid request_id", s)
  handle_replay read_fault endpoint_fault fault id now (some request_id) s =
      elim (get_request read_fault request_id s) [
        | err e ↦ (write_error 404 "endpoint not found", s)
        | ok req ↦ replay_to fault id now req (get_endpoint endpoint_fault req.endpoint_id s) s
      ]

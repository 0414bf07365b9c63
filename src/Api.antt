-- ===== src/Api.antt =====
-- internal/api/handler.go: the handlers' state and their replies.
pub mod Live
pub mod Cache
pub mod Capture
pub mod Endpoints
use vahak.Prelude.{ℕ, String, Option, List, [], ◌∷◌}
use vahak.Models.{Uuid, Time, Endpoint, Request}
use vahak.Queue.{JobQueue}
use vahak.Store.Storage.{Storage}
use vahak.Store.Sqlite.Flush.{IngestItem}
use vahak.Api.Live.{Hub}

pub data Payload : Type 0 where
  endpoint_payload : Endpoint → Payload
  endpoints_payload : List Endpoint → Payload
  requests_payload : List Request → Payload
  error_payload : String → Payload
  status_payload : String → Payload
  text_payload : String → Payload
  no_payload : Payload

pub record Reply : Type 0 where
  pub status : ℕ
  pub payload : Payload

-- writeJSON and writeError.
abbrev pub write_json : ℕ → Payload → Reply
write_json status payload = record { status = status; payload = payload }

abbrev pub write_error : ℕ → String → Reply
write_error status msg = write_json status (error_payload msg)

pub record CachedEndpoint : Type 0 where
  pub ep : Endpoint
  pub cached_at : Time

pub data AckMode : Type 0 where
  fast durable : AckMode

module _ (storage : Storage) where
  open storage use {State}

  -- `ep_cache` is the sync.Map. `accepted` is what was sent on the ingest channel, the last item
  -- first: the channel and the batch worker take it from there. `result_pool` holds the result
  -- channels that were put back, and `written` what went out on the connections of the hub.
  pub record Handler : Type 0 where
    pub store : State
    pub hub : Hub
    pub queue : JobQueue
    pub ep_cache : List (Uuid × CachedEndpoint)
    pub accepted : List IngestItem
    pub ack_mode : AckMode
    pub result_pool : List ℕ
    pub written : List (ℕ × String)

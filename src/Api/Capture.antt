-- ===== src/Api/Capture.antt =====
-- POST /hooks/{id} (internal/api/handler.go: CaptureWebhook), in both acknowledgement modes.
pub mod Acks
pub mod Keeps
use vahak.Prelude.{
  ℕ, zero, suc, ◌+◌, ◌*◌, String, Bool, true, false, ◌||◌, Option, none, some, List, [], ◌∷◌, ◌++◌,
  str_eq, string_eq, insert, ltb, if◌then◌else◌,
}
use vahak.Models.{Uuid, Time, Header, Endpoint, Request, DeliveryJob, pending, second}
use vahak.Queue.{push}
use vahak.Store.Error.{Error}
use vahak.Store.Storage.{Storage}
use vahak.Store.Sqlite.Flush.{IngestItem}
use vahak.Api.{Handler, Reply, write_json, write_error, status_payload, AckMode, fast, durable}
use vahak.Api.Live.{broadcast}
use vahak.Api.Cache.{Lookup, find_endpoint}

-- The HTTP request. `id` is uuid.Parse's answer, `header_of` is Header.Get, `body_size` the bytes of
-- the body, and `body_fault` a failure of the connection while it is read.
pub record Webhook : Type 0 where
  pub id : Option Uuid
  pub method : String
  pub header_of : String → String
  pub body : String
  pub body_size : ℕ
  pub body_fault : Bool
  pub remote_addr : String

-- How waiting for room in the ingest channel ends.
pub data Offer : Type 0 where
  sent timed_out cancelled : Offer

-- What one call reads of the outside: the two UUIDs and the clock readings, whether the ingest
-- channel has room and how the wait ends if it has not, which channel
-- of the pool is picked, if any, the channel that the pool makes otherwise, and what is received on it, or none if the request is cancelled first. `marshalled` is
-- json.Marshal's answer for the live view, and `canonical` the spelling of a header key.
pub record Ingress : Type 0 where
  pub lookup : Lookup
  pub request_id : Uuid
  pub job_id : Uuid
  pub received_at : Time
  pub due_from : Time
  pub created_at : Time
  pub room : Bool
  pub wait : Offer
  pub picked : Option ℕ
  pub fresh_channel : ℕ
  pub verdict : Option (Option Error)
  pub marshalled : Option String
  pub canonical : String → String

abbrev pub forwarded_keys : List String
forwarded_keys =
    "Content-Type" ∷ "X-Signature" ∷ "X-Hub-Signature" ∷ "X-Hub-Signature-256" ∷ "User-Agent" ∷ []

-- The loop over the keys.
unfoldable pub captured_headers :
    (String → String) → (String → String) → List String → Header → Header
captured_headers canonical header_of [] h = h
captured_headers canonical header_of (key ∷ keys) h =
    captured_headers canonical header_of keys
      (if str_eq (header_of key) "" then h else insert (canonical key) (header_of key ∷ []) h)

abbrev pub max_body : ℕ
max_body = 100 * 1024

-- io.ReadAll over http.MaxBytesReader.
unfoldable pub read_body : Webhook → Option String
read_body r = if r.body_fault || ltb max_body r.body_size then none else some r.body

-- The select on the ingest channel: at once if there is room, and else after a wait.
abbrev pub offered : Ingress → Offer
offered w = if w.room then sent else w.wait

-- sync.Pool's Get: any channel of the pool, or a new one.
unfoldable pub pick_channel : ℕ → ℕ → List ℕ → ℕ × List ℕ
pick_channel fresh n [] = (fresh, [])
pick_channel fresh zero (ch ∷ pool) = (ch, pool)
pick_channel fresh (suc n) (ch ∷ pool) =
    let (picked, rest) = pick_channel fresh n pool in (picked, ch ∷ rest)

unfoldable pub pool_get : Option ℕ → ℕ → List ℕ → ℕ × List ℕ
unfolding pick_channel
pool_get none fresh pool = (fresh, pool)
pool_get (some n) fresh pool = pick_channel fresh n pool

abbrev pub captured_request : Ingress → Webhook → Uuid → String → Request
captured_request w r id body = record {
  id = w.request_id;
  endpoint_id = id;
  method = r.method;
  headers = captured_headers w.canonical r.header_of forwarded_keys [];
  body = body;
  source_ip = r.remote_addr;
  received_at = w.received_at;
}

-- The job carries the request's data in memory, and is due after fifteen seconds.
abbrev pub captured_job : Ingress → Endpoint → Request → DeliveryJob
captured_job w ep req = record {
  id = w.job_id;
  request_id = req.id;
  target_url = ep.target_url;
  status = pending;
  attempts = 0;
  last_attempt = none;
  next_attempt = w.due_from + 15 * second;
  created_at = w.created_at;
  in_mem_method = req.method;
  in_mem_headers = some req.headers;
  in_mem_body = req.body;
  in_mem_transformer_script = ep.transformer_script;
  persisted = false;
}

abbrev pub overloaded : Reply
overloaded = write_error 503 "system overloaded, try again later"

abbrev pub gone : Reply
gone = write_error 503 "request cancelled or timed out"

abbrev pub captured_reply : Reply
captured_reply = write_json 200 (status_payload "captured")

module _ (storage : Storage) where
  -- The item is on the ingest channel.
  abbrev pub accept : IngestItem → Handler storage → Handler storage
  accept item h = record h { accepted = item ∷ h.accepted }

  -- Push and Broadcast.
  unfoldable pub send_on :
      Ingress → Uuid → Request → DeliveryJob → Handler storage → Handler storage
  send_on w id req job h = record h {
    queue = push job h.queue;
    written = broadcast id w.marshalled h.hub ++ h.written;
  }

  unfoldable pub capture_fast :
      Offer → Ingress → Uuid → Request → DeliveryJob → Handler storage → Reply × Handler storage
  unfolding send_on
  capture_fast timed_out w id req job h = (overloaded, h)
  capture_fast cancelled w id req job h = (gone, h)
  capture_fast sent w id req job h = (
    captured_reply,
    send_on w id req job (accept (record { request = req; job = none; result = none }) h),
  )

  -- The item is accepted, and the handler waits on its channel.
  unfoldable pub await_commit :
      Option (Option Error)
      → ℕ
      → Ingress
      → Uuid
      → Request
      → DeliveryJob
      → Handler storage
      → Reply × Handler storage
  unfolding send_on
  await_commit none ch w id req job h = (gone, record h { result_pool = ch ∷ h.result_pool })
  await_commit (some (some e)) ch w id req job h = (
    write_error 500 "failed to durably record webhook",
    record h { result_pool = ch ∷ h.result_pool },
  )
  await_commit (some none) ch w id req job h = (
    captured_reply,
    send_on w id req (record job { persisted = true })
        (record h { result_pool = ch ∷ h.result_pool }),
  )

  unfoldable pub offer_durable :
      Offer → ℕ → Ingress → Uuid → Request → DeliveryJob → Handler storage → Reply × Handler storage
  unfolding await_commit
  offer_durable timed_out ch w id req job h =
      (overloaded, record h { result_pool = ch ∷ h.result_pool })
  offer_durable cancelled ch w id req job h = (gone, record h { result_pool = ch ∷ h.result_pool })
  offer_durable sent ch w id req job h =
      await_commit w.verdict ch w id req job
        (accept (record { request = req; job = some job; result = some ch }) h)

  unfoldable pub capture_durable :
      Ingress → Uuid → Request → DeliveryJob → Handler storage → Reply × Handler storage
  unfolding offer_durable pool_get
  capture_durable w id req job h =
      let (ch, pool) = pool_get w.picked w.fresh_channel h.result_pool in
      offer_durable (offered w) ch w id req job (record h { result_pool = pool })

  unfoldable pub capture_in :
      AckMode → Ingress → Uuid → Request → DeliveryJob → Handler storage → Reply × Handler storage
  unfolding capture_fast capture_durable
  capture_in fast w id req job h = capture_fast (offered w) w id req job h
  capture_in durable w id req job h = capture_durable w id req job h

  -- The endpoint is known.
  unfoldable pub capture_body :
      Ingress → Webhook → Uuid → Endpoint → Handler storage → Reply × Handler storage
  unfolding capture_in read_body captured_headers
  capture_body w r id ep h = elim (read_body r) [
    | none ↦ (write_error 500 "failed to read request body", h)
    | some body ↦
        let req = captured_request w r id body in
        capture_in h.ack_mode w id req (captured_job w ep req) h
  ]

  unfoldable pub capture_at :
      Ingress → Webhook → Uuid → Option Endpoint × Handler storage → Reply × Handler storage
  unfolding capture_body
  capture_at w r id (none, h) = (write_error 404 "endpoint not found", h)
  capture_at w r id (some ep, h) = capture_body w r id ep h

  unfoldable pub capture_parsed :
      Option Uuid → Ingress → Webhook → Handler storage → Reply × Handler storage
  unfolding capture_at
  capture_parsed none w r h = (write_error 400 "invalid endpoint id", h)
  capture_parsed (some id) w r h = capture_at w r id (find_endpoint storage w.lookup id h)

  unfoldable pub capture_webhook : Ingress → Webhook → Handler storage → Reply × Handler storage
  unfolding capture_parsed
  capture_webhook w r h = capture_parsed r.id w r h

-- ===== src/Api/Capture/Acks.antt =====
-- What CaptureWebhook answers, and what it has done by then (internal/api/handler.go).
use vahak.Prelude.{
  ℕ, ◌≡◌, ◌≢◌, ◌⊎◌, ◌≤◌, refl, sym, ap, subst, ◌∙◌, inl, inr, String, true, Option, none, some,
  List, ◌∷◌, ◌++◌, arith, Option-cases,
}
use vahak.Models.{Uuid, Endpoint, Request, DeliveryJob}
use vahak.Queue.{push}
use vahak.Store.Error.{Error, Result-cases}
use vahak.Store.Storage.{Storage}
use vahak.Api.{Handler, CachedEndpoint, Reply, AckMode, fast, durable}
use vahak.Api.Live.{broadcast}
use vahak.Api.Cache.{find_endpoint, fetch_endpoint, fresh_entry}
use vahak.Api.Capture.{
  Webhook, Ingress, Offer, sent, timed_out, cancelled, offered, pool_get, read_body, max_body,
  captured_request, captured_job, captured_reply, accept, send_on, capture_fast, await_commit,
  offer_durable, capture_durable, capture_in, capture_body, capture_at, capture_parsed,
  capture_webhook,
}

read_body-some :
    (r : Webhook) (body : String)
    → read_body r ≡ some body
    → (body ≡ r.body) × (r.body_size ≤ max_body)
unfolding read_body
read_body-some r body h = ground arith

module _ (storage : Storage) where
  -- What stands behind a 200. In fast mode the request was accepted without its job, and the job
  -- was pushed. In durable mode both were accepted, a success was read on the item's
  -- channel, and the job was pushed as one that is persisted.
  pub data Ack (w : Ingress) (req : Request) (job : DeliveryJob) (h g : Handler storage)
      : AckMode → Type 0 where
    early :
        g.accepted ≡ record { request = req; job = none; result = none } ∷ h.accepted
        → g.queue ≡ push job h.queue
        → Ack w req job h g fast
    committed :
        (ch : ℕ)
        → w.verdict ≡ some none
        → g.accepted ≡ record { request = req; job = some job; result = some ch } ∷ h.accepted
        → g.queue ≡ push (record job { persisted = true }) h.queue
        → Ack w req job h g durable

  -- What an error leaves on its way to the store: nothing, or else the one item of a durable webhook
  -- whose wait ended without a success.
  pub data Left (w : Ingress) (req : Request) (job : DeliveryJob) (h g : Handler storage)
      : AckMode → Type 0 where
    nothing : {mode : AckMode} → g.accepted ≡ h.accepted → Left w req job h g mode
    unconfirmed :
        (ch : ℕ)
        → offered w ≡ sent
        → w.verdict ≢ some none
        → g.accepted ≡ record { request = req; job = some job; result = some ch } ∷ h.accepted
        → Left w req job h g durable

  pub data Answer (w : Ingress) (id : Uuid) (req : Request) (job : DeliveryJob) (mode : AckMode)
      (h g : Handler storage) (reply : Reply) : Type 0 where
    refused :
        400 ≤ reply.status
        → Left w req job h g mode
        → g.queue ≡ h.queue
        → g.written ≡ h.written
        → Answer w id req job mode h g reply
    captured :
        reply ≡ captured_reply
        → Ack w req job h g mode
        → g.written ≡ broadcast id w.marshalled h.hub ++ h.written
        → Answer w id req job mode h g reply

  capture_fast-Answer :
      (offer : Offer) (w : Ingress) (id : Uuid) (req : Request) (job : DeliveryJob)
      (h : Handler storage)
      → let r = capture_fast storage offer w id req job h in Answer w id req job fast h r.1 r.0
  unfolding capture_fast send_on
  capture_fast-Answer sent w id req job h = captured refl (early refl refl) refl
  capture_fast-Answer timed_out w id req job h = refused (omega arith) (nothing refl) refl refl
  capture_fast-Answer cancelled w id req job h = refused (omega arith) (nothing refl) refl refl

  await_commit-Answer :
      (verdict : Option (Option Error)) (ch : ℕ) (w : Ingress) (id : Uuid) (req : Request)
      (job : DeliveryJob) (h : Handler storage) (pool : List ℕ)
      → offered w ≡ sent
      → w.verdict ≡ verdict
      → let g =
          accept storage
            (record { request = req; job = some job; result = some ch })
            (record h { result_pool = pool }) in
        let r = await_commit storage verdict ch w id req job g in
        Answer w id req job durable h r.1 r.0
  unfolding await_commit send_on
  await_commit-Answer none ch w id req job h pool o e =
      refused (omega arith) (unconfirmed ch o (λ s. cc (s, e)) refl) refl refl
  await_commit-Answer (some none) ch w id req job h pool o e =
      captured refl (committed ch e refl refl) refl
  await_commit-Answer (some (some c)) ch w id req job h pool o e =
      refused (omega arith) (unconfirmed ch o (λ s. cc (s, e)) refl) refl refl

  offer_durable-Answer :
      (offer : Offer) (ch : ℕ) (w : Ingress) (id : Uuid) (req : Request) (job : DeliveryJob)
      (h : Handler storage) (pool : List ℕ)
      → offered w ≡ offer
      → let r = offer_durable storage offer ch w id req job (record h { result_pool = pool }) in
        Answer w id req job durable h r.1 r.0
  unfolding offer_durable
  offer_durable-Answer sent ch w id req job h pool o =
      await_commit-Answer w.verdict ch w id req job h pool o refl
  offer_durable-Answer timed_out ch w id req job h pool o =
      refused (omega arith) (nothing refl) refl refl
  offer_durable-Answer cancelled ch w id req job h pool o =
      refused (omega arith) (nothing refl) refl refl

  capture_in-Answer :
      (mode : AckMode) (w : Ingress) (id : Uuid) (req : Request) (job : DeliveryJob)
      (h : Handler storage)
      → let r = capture_in storage mode w id req job h in Answer w id req job mode h r.1 r.0
  unfolding capture_in capture_durable
  capture_in-Answer fast w id req job h = capture_fast-Answer (offered w) w id req job h
  capture_in-Answer durable w id req job h =
      let drawn = pool_get w.picked w.fresh_channel h.result_pool in
      offer_durable-Answer (offered w) drawn.0 w id req job h drawn.1 refl

  pub data Outcome (w : Ingress) (r : Webhook) (h g : Handler storage) (reply : Reply)
      : Type 0 where
    -- Of a durable webhook whose item the worker has, all that is known is that no success was read
    -- on the channel.
    turned_away :
        400 ≤ reply.status
        → (g.accepted ≡ h.accepted)
          ⊎ ((id : Uuid) × (ep : Endpoint) × (r.id ≡ some id)
              × ((find_endpoint storage w.lookup id h).0 ≡ some ep)
              × Left w
                  (captured_request w r id r.body)
                  (captured_job w ep (captured_request w r id r.body))
                  h
                  g
                  h.ack_mode)
        → g.queue ≡ h.queue
        → g.written ≡ h.written
        → Outcome w r h g reply
    taken :
        (id : Uuid) (ep : Endpoint)
        → r.id ≡ some id
        → (find_endpoint storage w.lookup id h).0 ≡ some ep
        → r.body_size ≤ max_body
        → reply ≡ captured_reply
        → (let req = captured_request w r id r.body in
            Ack w req (captured_job w ep req) h g h.ack_mode)
        → g.written ≡ broadcast id w.marshalled h.hub ++ h.written
        → Outcome w r h g reply

  -- The lookup touches the cache only.
  pub find_endpoint-keeps :
      (w : Ingress) (id : Uuid) (h : Handler storage)
      → (find_endpoint storage w.lookup id h).1
        ≡ record h { ep_cache = (find_endpoint storage w.lookup id h).1.ep_cache }
  unfolding find_endpoint fetch_endpoint
  find_endpoint-keeps w id h =
      elim (Option-cases (fresh_entry w.lookup.checked_at id h.ep_cache).0) [
        | inr (ep, e) ↦ rw (e, find_endpoint) refl
        | inl e ↦ elim (Result-cases (storage.get_endpoint w.lookup.endpoint_fault id h.store)) [
          | inl (ep, got) ↦ rw (e, find_endpoint) (rw (got, fetch_endpoint) refl)
          | inr (c, lost) ↦ rw (e, find_endpoint) (rw (lost, fetch_endpoint) refl)
        ]
      ]

  move-Ack :
      (w : Ingress) (req : Request) (job : DeliveryJob) (h g : Handler storage)
      (cache : List (Uuid × CachedEndpoint)) {mode : AckMode}
      → Ack w req job (record h { ep_cache = cache }) g mode
      → Ack w req job h g mode
  move-Ack w req job h g cache (early a q) = early a q
  move-Ack w req job h g cache (committed ch v a q) = committed ch v a q

  move-Left :
      (w : Ingress) (req : Request) (job : DeliveryJob) (h g : Handler storage)
      (cache : List (Uuid × CachedEndpoint)) {mode : AckMode}
      → Left w req job (record h { ep_cache = cache }) g mode
      → Left w req job h g mode
  move-Left w req job h g cache (nothing a) = nothing a
  move-Left w req job h g cache (unconfirmed ch o v a) = unconfirmed ch o v a

  answer_to_outcome :
      (w : Ingress) (r : Webhook) (id : Uuid) (ep : Endpoint) (h g : Handler storage)
      (cache : List (Uuid × CachedEndpoint)) (reply : Reply)
      → r.id ≡ some id
      → (find_endpoint storage w.lookup id h).0 ≡ some ep
      → r.body_size ≤ max_body
      → (let req = captured_request w r id r.body in
          Answer w id req
            (captured_job w ep req)
            h.ack_mode
            (record h { ep_cache = cache })
            g
            reply)
      → Outcome w r h g reply
  answer_to_outcome w r id ep h g cache reply i found small (refused bad left q l) =
      turned_away bad (inr (id, ep, i, found, move-Left w _ _ h g cache left)) q l
  answer_to_outcome w r id ep h g cache reply i found small (captured good ack l) =
      taken id ep i found small good (move-Ack w _ _ h g cache ack) l

  capture_body-Outcome :
      (w : Ingress) (r : Webhook) (id : Uuid) (ep : Endpoint) (h : Handler storage)
      (cache : List (Uuid × CachedEndpoint))
      → r.id ≡ some id
      → (find_endpoint storage w.lookup id h).0 ≡ some ep
      → let x = capture_body storage w r id ep (record h { ep_cache = cache }) in
        Outcome w r h x.1 x.0
  unfolding capture_body
  capture_body-Outcome w r id ep h cache i found = elim (Option-cases (read_body r)) [
    | inl unread ↦ rw (unread, capture_body) (turned_away (omega arith) (inl refl) refl refl)
    | inr (body, read) ↦
        let (same, small) = read_body-some r body read in
        rw (read ∙ ap some same, capture_body)
          (answer_to_outcome w r id ep h _ cache _ i found small (
            let req = captured_request w r id r.body in
            capture_in-Answer h.ack_mode w id req (captured_job w ep req)
              (record h { ep_cache = cache })))
  ]

  capture_at-Outcome :
      (w : Ingress) (r : Webhook) (id : Uuid) (h : Handler storage) (answer : Option Endpoint)
      (cache : List (Uuid × CachedEndpoint))
      → r.id ≡ some id
      → (find_endpoint storage w.lookup id h).0 ≡ answer
      → let x = capture_at storage w r id (answer, record h { ep_cache = cache }) in
        Outcome w r h x.1 x.0
  unfolding capture_at
  capture_at-Outcome w r id h none cache i found = turned_away (omega arith) (inl refl) refl refl
  capture_at-Outcome w r id h (some ep) cache i found =
      capture_body-Outcome w r id ep h cache i found

  capture_parsed-Outcome :
      (parsed : Option Uuid) (w : Ingress) (r : Webhook) (h : Handler storage)
      → r.id ≡ parsed
      → let x = capture_parsed storage parsed w r h in Outcome w r h x.1 x.0
  unfolding capture_parsed
  capture_parsed-Outcome none w r h i = turned_away (omega arith) (inl refl) refl refl
  capture_parsed-Outcome (some id) w r h i =
      let found = find_endpoint storage w.lookup id h in
      subst (λ g. let x = capture_at storage w r id (found.0, g) in Outcome w r h x.1 x.0)
        (sym (find_endpoint-keeps w id h))
        (capture_at-Outcome w r id h found.0 found.1.ep_cache i refl)

  -- A webhook is either answered with an error, and then no job is queued for delivery, nothing is
  -- shown to the live view, and nothing is on its way to the store, unless in durable mode its item
  -- was sent on the ingest channel and no success was read on the item's channel; or it is answered
  -- with 200, and then its endpoint was found, its body is within the limit, the live view of that
  -- endpoint is told, and what the acknowledgement mode asks for is done: in fast mode the request
  -- is on its way to the store and the job is pushed, in durable mode the request and the job were
  -- sent in one item, a success was read on the item's channel, and the job is pushed as one that
  -- the store has. Who sent what is read on the channel is left open here.
  pub capture_webhook-Outcome :
      (w : Ingress) (r : Webhook) (h : Handler storage)
      → let x = capture_webhook storage w r h in Outcome w r h x.1 x.0
  unfolding capture_webhook
  capture_webhook-Outcome w r h = capture_parsed-Outcome r.id w r h refl

-- ===== src/Api/Capture/Keeps.antt =====
-- What CaptureWebhook leaves alone (internal/api/handler.go).
use vahak.Prelude.{ℕ, ◌≡◌, refl, ◌∙◌, inl, inr, Option, none, some, Option-cases}
use vahak.Models.{Uuid, Endpoint, Request, DeliveryJob}
use vahak.Store.Error.{Error}
use vahak.Store.Storage.{Storage}
use vahak.Api.{Handler, AckMode, fast, durable}
use vahak.Api.Cache.{find_endpoint}
use vahak.Api.Capture.{
  accept, Webhook, Ingress, Offer, sent, timed_out, cancelled, offered, read_body, pool_get,
  captured_request, captured_job, send_on, capture_fast, await_commit, offer_durable,
  capture_durable, capture_in, capture_body, capture_at, capture_parsed, capture_webhook,
}
use vahak.Api.Capture.Acks.{find_endpoint-keeps}

module _ (storage : Storage) where
  -- The tables, the connections of the live view and the mode are as they were.
  abbrev pub Untouched : Handler storage → Handler storage → Type 0
  Untouched h g = (g.store ≡ h.store) × (g.hub ≡ h.hub) × (g.ack_mode ≡ h.ack_mode)

  pub followed : (h g k : Handler storage) → Untouched h g → Untouched g k → Untouched h k
  followed h g k (s, b, m) (s', b', m') = (s' ∙ s, b' ∙ b, m' ∙ m)

  await_commit-Untouched :
      (verdict : Option (Option Error)) (ch : ℕ) (w : Ingress) (id : Uuid) (req : Request)
      (job : DeliveryJob) (h : Handler storage)
      → Untouched h (await_commit storage verdict ch w id req job h).1
  unfolding await_commit send_on
  await_commit-Untouched none ch w id req job h = (refl, refl, refl)
  await_commit-Untouched (some none) ch w id req job h = (refl, refl, refl)
  await_commit-Untouched (some (some e)) ch w id req job h = (refl, refl, refl)

  offer_durable-Untouched :
      (offer : Offer) (ch : ℕ) (w : Ingress) (id : Uuid) (req : Request) (job : DeliveryJob)
      (h : Handler storage)
      → Untouched h (offer_durable storage offer ch w id req job h).1
  unfolding offer_durable
  offer_durable-Untouched timed_out ch w id req job h = (refl, refl, refl)
  offer_durable-Untouched cancelled ch w id req job h = (refl, refl, refl)
  offer_durable-Untouched sent ch w id req job h =
      await_commit-Untouched w.verdict ch w id req job
        (accept storage (record { request = req; job = some job; result = some ch }) h)

  capture_fast-Untouched :
      (offer : Offer) (w : Ingress) (id : Uuid) (req : Request) (job : DeliveryJob)
      (h : Handler storage)
      → Untouched h (capture_fast storage offer w id req job h).1
  unfolding capture_fast send_on
  capture_fast-Untouched sent w id req job h = (refl, refl, refl)
  capture_fast-Untouched timed_out w id req job h = (refl, refl, refl)
  capture_fast-Untouched cancelled w id req job h = (refl, refl, refl)

  capture_in-Untouched :
      (mode : AckMode) (w : Ingress) (id : Uuid) (req : Request) (job : DeliveryJob)
      (h : Handler storage)
      → Untouched h (capture_in storage mode w id req job h).1
  unfolding capture_in capture_durable
  capture_in-Untouched fast w id req job h = capture_fast-Untouched (offered w) w id req job h
  capture_in-Untouched durable w id req job h =
      offer_durable-Untouched (offered w) (pool_get w.picked w.fresh_channel h.result_pool).0 w id
        req job (record h { result_pool = (pool_get w.picked w.fresh_channel h.result_pool).1 })

  capture_at-Untouched :
      (w : Ingress) (r : Webhook) (id : Uuid) (found : Option Endpoint) (h : Handler storage)
      → Untouched h (capture_at storage w r id (found, h)).1
  unfolding capture_at
  capture_at-Untouched w r id none h = (refl, refl, refl)
  capture_at-Untouched w r id (some ep) h = elim (Option-cases (read_body r)) [
    | inl e ↦ rw (e, capture_body) (refl, refl, refl)
    | inr (body, e) ↦
        rw (e, capture_body)
          (let req = captured_request w r id body in
            capture_in-Untouched h.ack_mode w id req (captured_job w ep req) h)
  ]

  find_endpoint-Untouched :
      (w : Ingress) (id : Uuid) (h : Handler storage)
      → Untouched h (find_endpoint storage w.lookup id h).1
  unfolding find_endpoint
  find_endpoint-Untouched w id h = rw (find_endpoint-keeps storage w id h) (refl, refl, refl)

  capture_parsed-Untouched :
      (parsed : Option Uuid) (w : Ingress) (r : Webhook) (h : Handler storage)
      → Untouched h (capture_parsed storage parsed w r h).1
  unfolding capture_parsed
  capture_parsed-Untouched none w r h = (refl, refl, refl)
  capture_parsed-Untouched (some id) w r h =
      let found = find_endpoint storage w.lookup id h in
      followed h found.1 (capture_at storage w r id (found.0, found.1)).1
        (find_endpoint-Untouched w id h) (capture_at-Untouched w r id found.0 found.1)

  pub capture_webhook-Untouched :
      (w : Ingress) (r : Webhook) (h : Handler storage)
      → Untouched h (capture_webhook storage w r h).1
  unfolding capture_webhook
  capture_webhook-Untouched w r h = capture_parsed-Untouched r.id w r h

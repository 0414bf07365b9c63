-- ===== src/System/Acknowledged.antt =====
-- From the webhook to the store and on to delivery: CaptureWebhook of internal/api/handler.go, the
-- batch that flushBatch of the engine makes of its item, and the forwarder.
use vahak.Prelude.{
  any-append, ℕ, ◌≡◌, refl, sym, ap, subst, ◌∙◌, ◌⊎◌, inl, inr, false, none, some, List, ◌∷◌, ◌++◌,
  arith, Memᴰ, any, ◌==◌,
}
use vahak.Models.{Endpoint, Uuid, Request, DeliveryJob}
use vahak.Store.Storage.{Storage}
use vahak.Store.Engine.{Engine, Pending}
use vahak.Store.Sqlite.Flush.{IngestItem}
use vahak.Api.{Handler, AckMode, durable}
use vahak.Api.Capture.{Webhook, Ingress, captured_request, captured_job, capture_webhook}
use vahak.Api.Capture.Acks.{Ack, Outcome, capture_webhook-Outcome}
use vahak.System.{System, Step, run, store_of}
use vahak.System.Flights.{is_winner}
use vahak.System.Landing.{is_marked}
use vahak.System.Delivery.{Settled, at_least_once}

cons-injective : {a b : IngestItem} {xs ys : List IngestItem} → a ∷ xs ≡ b ∷ ys → a ≡ b
cons-injective h = cc

-- The item that a durable webhook answered with 200 left in the channel.
abbrev item_of : Ingress → Webhook → Uuid → Endpoint → ℕ → IngestItem
item_of w r id ep ch =
    let req = captured_request w r id r.body in
    record { request = req; job = some (captured_job w ep req); result = some ch }

module _ (storage : Storage) where
  committed-Ack :
      (w : Ingress) (req : Request) (job : DeliveryJob) (h g : Handler storage) (mode : AckMode)
      → mode ≡ durable
      → Ack storage w req job h g mode
      → (ch : ℕ) × (w.verdict ≡ some none)
        × (g.accepted ≡ record { request = req; job = some job; result = some ch } ∷ h.accepted)
  committed-Ack w req job h g mode e (Ack.early a q) = absurd (cc e)
  committed-Ack w req job h g mode e (Ack.committed ch v a q) = (ch, v, a)

  acked_item :
      (w : Ingress) (r : Webhook) (h : Handler storage) (item : IngestItem)
      → let x = capture_webhook storage w r h in
        h.ack_mode ≡ durable
        → x.0.status ≡ 200
        → x.1.accepted ≡ item ∷ h.accepted
        → (id : Uuid) × (ep : Endpoint) × (ch : ℕ) × (w.verdict ≡ some none)
          × (item ≡ item_of w r id ep ch)
  acked_item w r h item mode good taken_in = elim (capture_webhook-Outcome storage w r h) [
    | Outcome.turned_away bad left q l ↦ absurd (omega (arith, bad, good))
    | Outcome.taken id ep i found small reply ack l ↦
        let (ch, v, a) = committed-Ack w _ _ h _ h.ack_mode mode ack in
        (id, ep, ch, v, cons-injective (sym taken_in ∙ a))
  ]

module _ (engine : Engine) where
  open engine use {storage}

  captured-Pending :
      (w : Ingress) (r : Webhook) (h : Handler storage) (item : IngestItem) (faults : engine.Faults)
      (items : List IngestItem) (st : storage.State)
      → engine.Sound st
      → h.ack_mode ≡ durable
      → (capture_webhook storage w r h).1.accepted ≡ item ∷ h.accepted
      → Memᴰ item items
      → ((ch : ℕ)
          → item.result ≡ some ch
          → w.verdict ≡ some none
          → Memᴰ (ch, none) (engine.flush_batch faults items st).1)
      → (capture_webhook storage w r h).0.status ≡ 200
      → Pending storage w.job_id (engine.flush_batch faults items st).0
  captured-Pending w r h item faults items st c mode taken_in m told good =
      let (id, ep, ch, v, same) = acked_item storage w r h item mode good taken_in in
      engine.flush-stores faults items (item_of w r id ep ch)
        (captured_job w ep (captured_request w r id r.body)) st ch c
        (subst (λ i. Memᴰ i items) same m) refl refl (told ch (ap (λ i. i.result) same) v)

  -- A webhook that is answered with 200 in durable mode is delivered at least once, or given up
  -- after `max_attempts` failures, or its endpoint is deleted, or it is still pending, with either
  -- engine. Let the batch worker put the item that the handler sent into some batch over a store
  -- that keeps its constraints, and let the handler be told that all is well only if flushBatch of
  -- that batch said so on the item's channel; take the server in any state over the store that the
  -- batch leaves in which nobody is about to mark the webhook's job as delivered and no call of
  -- processJob has a 2xx for it, and let the goroutines take any steps from there.
  pub acknowledged_is_not_lost :
      (w : Ingress) (r : Webhook) (h : Handler storage) (item : IngestItem) (faults : engine.Faults)
      (items : List IngestItem) (st : storage.State) (s : System engine) (es : List (Step engine))
      → engine.Sound st
      → h.ack_mode ≡ durable
      → (capture_webhook storage w r h).1.accepted ≡ item ∷ h.accepted
      → Memᴰ item items
      → ((ch : ℕ)
          → item.result ≡ some ch
          → w.verdict ≡ some none
          → Memᴰ (ch, none) (engine.flush_batch faults items st).1)
      → (capture_webhook storage w r h).0.status ≡ 200
      → store_of engine s ≡ (engine.flush_batch faults items st).0
      → is_marked w.job_id (s.forwarder.delivered_ch ++ s.ids) ≡ false
      → any (is_winner w.job_id) s.flights ≡ false
      → Pending storage w.job_id (store_of engine (run engine es s)) ⊎ Settled engine w.job_id es s
  acknowledged_is_not_lost w r h item faults items st s es c mode taken_in m told good here free
        unwon =
      let waiting = captured-Pending w r h item faults items st c mode taken_in m told good in
      let split = sym (any-append (λ i. i == w.job_id) s.forwarder.delivered_ch s.ids) ∙ free in
      elim (at_least_once engine w.job_id es s (record {
        waits_still = subst (Pending storage w.job_id) (sym here) waiting;
        unmarked_ch = ground (arith, split);
        unmarked_ids = ground (arith, split);
        unwon = unwon;
      })) [ inl still ↦ inl still.waits_still | inr done ↦ inr done ]

-- ===== src/Server/Life/Calls.antt =====
-- The calls of flushBatch, and what a turn of the batch worker adds to them (batchWorker of
-- internal/store/sqlite.go and internal/store/store.go).
use vahak.Prelude.{
  ℕ, Bool, map, ◌+◌, ◌≤◌, ◌≡◌, refl, sym, ap, ◌∙◌, inl, inr, true, List, [], ◌∷◌, ◌++◌, length, leb,
  arith, Bool-cases, if◌then◌else◌, length-append,
}
use mathlib.Core.List.{append_assoc}
use vahak.Store.Sqlite.Flush.{IngestItem}
use vahak.Config.{Engine, sqlite, postgres}
use vahak.Store.Worker.{
  Event, fill, receive, sqlite_limit, postgres_limit, Worker, drain_limit, flush_buffer, arrives,
  receives, ticks, work,
}
use vahak.Store.Worker.Drain.{concat, held, arrivals, work-held, flush_buffer-held}
use vahak.Server.Life.{batch_worker, log_calls, Life, drain_one}

-- The items of the calls, and the calls with a cancelled context.
unfoldable pub items_of : List (Bool × List IngestItem) → List IngestItem
items_of [] = []
items_of ((live, b) ∷ calls) = b ++ items_of calls

unfoldable pub cancelled_calls : List (Bool × List IngestItem) → ℕ
cancelled_calls [] = 0
cancelled_calls ((live, b) ∷ calls) =
    let rest = cancelled_calls calls in if live then rest else rest + 1

items_of-log :
    (live : Bool) (calls : List (Bool × List IngestItem)) (bs : List (List IngestItem))
    → items_of (calls ++ map (λ b. (live, b)) bs) ≡ items_of calls ++ concat bs
unfolding items_of
items_of-log live [] [] = refl
items_of-log live [] (b ∷ bs) = ap (λ l. b ++ l) (items_of-log live [] bs)
items_of-log live ((l, c) ∷ calls) bs =
    ap (λ x. c ++ x) (items_of-log live calls bs)
    ∙ sym (append_assoc c (items_of calls) (concat bs))

cancelled_calls-log :
    (live : Bool) (calls : List (Bool × List IngestItem)) (bs : List (List IngestItem))
    → cancelled_calls (calls ++ map (λ b. (live, b)) bs)
      ≤ cancelled_calls calls + (if live then 0 else length bs)
unfolding cancelled_calls
cancelled_calls-log live [] [] = ground arith
cancelled_calls-log live [] (b ∷ bs) = ground (arith, cancelled_calls-log live [] bs)
cancelled_calls-log live ((l, c) ∷ calls) bs = ground (arith, cancelled_calls-log live calls bs)

pub drain_one-held :
    (ch : List IngestItem) (w : Worker) → w.ingest_ch ≡ ch → held (drain_one ch w) ≡ held w
unfolding drain_one
drain_one-held [] w e = refl
drain_one-held (item ∷ ch) w e =
    let buffer = w.buffer ++ item ∷ [] in
    let taken = record w { ingest_ch = ch; buffer = buffer } in
    let same : held taken ≡ held w =
      ap (λ l. concat w.batches ++ l)
        (append_assoc w.buffer (item ∷ []) ch ∙ ap (λ l. w.buffer ++ l) (sym e)) in
    elim (Bool-cases (leb drain_limit (length buffer))) [
      | inl full ↦ rw full (flush_buffer-held buffer taken refl ∙ same)
      | inr more ↦ rw more same
    ]

pub batch_worker-held :
    (engine : Engine) (e : Event) (w : Worker)
    → held (batch_worker engine e w) ≡ held w ++ arrivals (e ∷ [])
unfolding batch_worker
batch_worker-held sqlite e w = work-held sqlite_limit e w
batch_worker-held postgres e w = work-held postgres_limit e w

pub batch_worker-queues :
    (engine : Engine) (item : IngestItem) (w : Worker)
    → let v = batch_worker engine (arrives item) w in
      (v.buffer ≡ w.buffer) × (v.ingest_ch ≡ w.ingest_ch ++ item ∷ []) × (v.batches ≡ w.batches)
unfolding batch_worker work
batch_worker-queues sqlite item w = (refl, refl, refl)
batch_worker-queues postgres item w = (refl, refl, refl)

flush_buffer-one :
    (buffer : List IngestItem) (w : Worker)
    → w.batches ≡ []
    → length (flush_buffer buffer w).batches ≤ 1
unfolding flush_buffer
flush_buffer-one [] w none = omega (arith, ap length none)
flush_buffer-one (item ∷ items) w none =
    omega (arith, ap length none, length-append w.batches ((item ∷ items) ∷ []))

receive-one :
    (limit : ℕ) (ch : List IngestItem) (w : Worker)
    → w.batches ≡ []
    → length (receive limit ch w).batches ≤ 1
unfolding receive
receive-one limit [] w none = omega (arith, ap length none)
receive-one limit (item ∷ ch) w none = omega (
  arith,
  ap length none,
  length-append w.batches ((fill limit (w.buffer ++ item ∷ []) ch).0 ∷ []),
)

work-one :
    (limit : ℕ) (e : Event) (w : Worker) → w.batches ≡ [] → length (work limit e w).batches ≤ 1
unfolding work
work-one limit (arrives item) w none = omega (arith, ap length none)
work-one limit receives w none = receive-one limit w.ingest_ch w none
work-one limit ticks w none = flush_buffer-one w.buffer w none

-- A turn of the worker flushes one batch at most.
pub batch_worker-one :
    (engine : Engine) (e : Event) (w : Worker)
    → w.batches ≡ []
    → length (batch_worker engine e w).batches ≤ 1
unfolding batch_worker
batch_worker-one sqlite e w none = work-one sqlite_limit e w none
batch_worker-one postgres e w none = work-one postgres_limit e w none

pub log_calls-kept :
    (live : Bool) (w : Worker) (p : Life)
    → held w ≡ held p.worker
    → items_of p.flushed ++ held p.worker ≡ p.sent
    → let q = log_calls live w p in items_of q.flushed ++ held q.worker ≡ q.sent
unfolding log_calls
log_calls-kept live w p same kept =
    ap (λ l. l ++ (w.buffer ++ w.ingest_ch)) (items_of-log live p.flushed w.batches)
    ∙ append_assoc (items_of p.flushed) (concat w.batches) (w.buffer ++ w.ingest_ch)
    ∙ ap (λ l. items_of p.flushed ++ l) same
    ∙ kept

pub log_calls-late :
    (live : Bool) (w : Worker) (p : Life)
    → length w.batches ≤ 1
    → cancelled_calls p.flushed ≤ p.late_turns
    → cancelled_calls (log_calls live w p).flushed ≤ (log_calls live w p).late_turns
unfolding log_calls
log_calls-late live w p one late =
    ground (arith, cancelled_calls-log live p.flushed w.batches, one, late)

-- The drain, with a context of its own.
pub drain-late :
    (w : Worker) (p : Life)
    → cancelled_calls p.flushed ≤ p.late_turns
    → cancelled_calls (log_calls true w p).flushed ≤ (log_calls true w p).late_turns
unfolding log_calls
drain-late w p late = omega (arith, cancelled_calls-log true p.flushed w.batches, late)

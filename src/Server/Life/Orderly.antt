-- ===== src/Server/Life/Orderly.antt =====
-- What each move of the process keeps (cmd/server/main.go, batchWorker and Close of
-- internal/store/sqlite.go and internal/store/store.go).
use vahak.Prelude.{
  ℕ, Bool, ◌+◌, ◌≤◌, ◌≡◌, refl, sym, ap, ◌∙◌, true, false, List, [], ◌∷◌, ◌++◌, length, arith,
  if◌then◌else◌, length-append,
}
use mathlib.Core.List.{append-nil, append_assoc}
use vahak.Store.Sqlite.Flush.{IngestItem}
use vahak.Config.{Engine}
use vahak.Store.Worker.{Worker, flush_buffer, arrives, receives, ticks}
use vahak.Store.Worker.Drain.{held, arrivals, flush_buffer-held}
use vahak.Server.Life.{
  log_calls, Mode, running, draining, returned, is_serving, is_closed, is_running, is_returned,
  Life, send, drained, close, Moves, accepts, sends, answers, receives_batch, clock_ticks,
  interrupted, cancels, sees_cancel, drains, returns, closes, exits,
}
use vahak.Server.Life.Calls.{
  items_of, cancelled_calls, drain_one-held, batch_worker-held, batch_worker-queues,
  batch_worker-one, log_calls-kept, log_calls-late, drain-late,
}

-- Nothing that was sent is lost before the worker returns, and the database is closed after that.
pub record IsOrderly (p : Life) : Type 0 where
  pub kept : items_of p.flushed ++ held p.worker ≡ p.sent
  pub logged : p.worker.batches ≡ []
  pub late : cancelled_calls p.flushed ≤ p.late_turns
  pub counted : p.batch_wg ≡ (if is_returned p.mode then 0 else 1)
  pub cancelled : is_running p.mode ≡ false → is_serving p.stage ≡ false
  pub shut : is_serving p.stage ≡ false → p.shutting ≡ true
  pub emptied :
      is_returned p.mode ≡ true
      → (p.worker.buffer ≡ []) × (length p.worker.ingest_ch + p.in_flight ≤ p.left_behind)
  pub closed_after : is_closed p.stage ≡ true → (is_returned p.mode ≡ true) × (p.stored ≡ p.flushed)

send-IsOrderly :
    (engine : Engine) (p : Life) (rest : ℕ) (item : IngestItem)
    → p.in_flight ≡ rest + 1
    → IsOrderly p
    → IsOrderly (send engine item rest p)
unfolding send arrivals
send-IsOrderly engine p rest item e o =
    let (buffer, ch, batches) = batch_worker-queues engine item p.worker in
    record {
      kept =
          ap (λ l. items_of p.flushed ++ l) (batch_worker-held engine (arrives item) p.worker)
          ∙ sym (append_assoc (items_of p.flushed) (held p.worker) (item ∷ []))
          ∙ ap (λ l. l ++ item ∷ []) o.kept;
      logged = batches ∙ o.logged;
      late = o.late;
      counted = o.counted;
      cancelled = o.cancelled;
      shut = o.shut;
      emptied = λ r. (
        buffer ∙ (o.emptied r).0,
        omega
            (arith, (o.emptied r).1, e, ap length ch, length-append p.worker.ingest_ch (item ∷ [])),
      );
      closed_after = o.closed_after;
    }

-- A step of the worker while it runs.
worker-IsOrderly :
    (live : Bool) (p : Life) (w : Worker)
    → held w ≡ held p.worker
    → cancelled_calls (log_calls live w p).flushed ≤ (log_calls live w p).late_turns
    → is_returned p.mode ≡ false
    → IsOrderly p
    → IsOrderly (log_calls live w p)
unfolding log_calls
worker-IsOrderly live p w same few busy o = record {
  kept = log_calls-kept live w p same o.kept;
  logged = refl;
  late = few;
  counted = o.counted;
  cancelled = o.cancelled;
  shut = o.shut;
  emptied = λ r. absurd (cc (busy, r));
  closed_after = λ c. absurd (cc (busy, (o.closed_after c).0));
}

flush_buffer-empties :
    (buffer : List IngestItem) (w : Worker)
    → w.buffer ≡ buffer
    → let v = flush_buffer buffer w in (v.buffer ≡ []) × (v.ingest_ch ≡ w.ingest_ch)
unfolding flush_buffer
flush_buffer-empties [] w e = (e, refl)
flush_buffer-empties (item ∷ items) w e = (refl, refl)

drained-IsOrderly :
    (p : Life) → p.mode ≡ draining → p.worker.ingest_ch ≡ [] → IsOrderly p → IsOrderly (drained p)
unfolding drained log_calls
drained-IsOrderly p m e o = record {
  kept =
      log_calls-kept true (flush_buffer p.worker.buffer p.worker) p
        (flush_buffer-held p.worker.buffer p.worker refl) o.kept;
  logged = refl;
  late = drain-late (flush_buffer p.worker.buffer p.worker) p o.late;
  counted = ground (arith, o.counted, ap is_returned m);
  cancelled = λ r. o.cancelled (ap is_running m);
  shut = o.shut;
  emptied = λ r.
      let (empty, same) = flush_buffer-empties p.worker.buffer p.worker refl in
      (empty, omega (arith, ap length (same ∙ e)));
  closed_after = λ c. absurd (cc (m, (o.closed_after c).0));
}

not-running : (m : Mode) → is_returned m ≡ true → is_running m ≡ false
not-running running r = absurd (cc r)
not-running draining r = refl
not-running returned r = refl

all_done : (m : Mode) → ◌≡◌ {A = ℕ} (if is_returned m then 0 else 1) 0 → is_returned m ≡ true
all_done running z = absurd (omega (arith, z))
all_done draining z = absurd (omega (arith, z))
all_done returned z = refl

pub Moves-IsOrderly : {engine : Engine} {p q : Life} → Moves engine p q → IsOrderly p → IsOrderly q
unfolding close arrivals
Moves-IsOrderly (accepts p open_) o = record {
  kept = o.kept;
  logged = o.logged;
  late = o.late;
  counted = o.counted;
  cancelled = o.cancelled;
  shut = o.shut;
  emptied = λ r. absurd (cc (open_, o.shut (o.cancelled (not-running p.mode r))));
  closed_after = o.closed_after;
}
Moves-IsOrderly (sends p rest item alive e room) o = send-IsOrderly _ p rest item e o
Moves-IsOrderly (answers p rest e) o = record {
  kept = o.kept;
  logged = o.logged;
  late = o.late;
  counted = o.counted;
  cancelled = o.cancelled;
  shut = o.shut;
  emptied = λ r. ((o.emptied r).0, omega (arith, (o.emptied r).1, e));
  closed_after = o.closed_after;
}
Moves-IsOrderly {engine} (receives_batch p m) o =
    worker-IsOrderly (is_serving p.stage) p _
      (batch_worker-held engine receives p.worker ∙ append-nil (held p.worker))
      (log_calls-late (is_serving p.stage) _ p (batch_worker-one engine receives p.worker o.logged)
        o.late)
      (ap is_returned m) o
Moves-IsOrderly {engine} (clock_ticks p m) o =
    worker-IsOrderly (is_serving p.stage) p _
      (batch_worker-held engine ticks p.worker ∙ append-nil (held p.worker))
      (log_calls-late (is_serving p.stage) _ p (batch_worker-one engine ticks p.worker o.logged)
        o.late)
      (ap is_returned m) o
Moves-IsOrderly (interrupted p s) o = record {
  kept = o.kept;
  logged = o.logged;
  late = o.late;
  counted = o.counted;
  cancelled = o.cancelled;
  shut = λ c. refl;
  emptied = o.emptied;
  closed_after = o.closed_after;
}
Moves-IsOrderly (cancels p s down) o = record {
  kept = o.kept;
  logged = o.logged;
  late = o.late;
  counted = o.counted;
  cancelled = λ r. refl;
  shut = λ c. down;
  emptied = o.emptied;
  closed_after = λ c. absurd (cc c);
}
Moves-IsOrderly (sees_cancel p m s) o = record {
  kept = o.kept;
  logged = o.logged;
  late = o.late;
  counted = o.counted ∙ ap (λ x. if is_returned x then 0 else 1) m;
  cancelled = λ r. s;
  shut = o.shut;
  emptied = λ r. absurd (cc r);
  closed_after = λ c. absurd (cc (ap is_returned m, (o.closed_after c).0));
}
Moves-IsOrderly (drains p m) o =
    worker-IsOrderly true p _ (drain_one-held p.worker.ingest_ch p.worker refl)
      (drain-late _ p o.late) (ap is_returned m) o
Moves-IsOrderly (returns p m e) o = drained-IsOrderly p m e o
Moves-IsOrderly (closes p s none) o =
    let over = all_done p.mode (sym o.counted ∙ none) in
    record {
      kept = o.kept;
      logged = o.logged;
      late = o.late;
      counted = o.counted;
      cancelled = λ r. refl;
      shut = λ c. o.shut (ap is_serving s);
      emptied = o.emptied;
      closed_after = λ c. (over, refl);
    }
Moves-IsOrderly (exits p s) o = record {
  kept = o.kept;
  logged = o.logged;
  late = o.late;
  counted = o.counted;
  cancelled = λ r. refl;
  shut = λ c. o.shut (ap is_serving s);
  emptied = o.emptied;
  closed_after = λ c. o.closed_after (ap is_closed s);
}

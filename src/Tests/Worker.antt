-- ===== src/Tests/Worker.antt =====
-- The batch worker, the sweep, the flusher, and histories of the SQLite engine at concrete inputs.
use vahak.Prelude.{
  refl, some, ◌≡◌, ◌≤◌, ◌⊎◌, false, none, List, [], ◌∷◌, ◌++◌, map, length, arith, All, ltb,
}
use vahak.Store.Db.Integrity.{IsConsistent}
use vahak.Store.Sqlite.Bulk.{no_faults}
use vahak.Store.Sqlite.Implements.{sqlite_storage}
use vahak.Store.Sqlite.History.{
  Call, creates_endpoint, flushes, claims, saves_job, prunes, empty_db, after_calls,
  after_calls-IsConsistent,
}
use vahak.Store.Worker.{Event, arrives, receives, ticks, new_worker, work_all, stop, sqlite_limit}
use vahak.Store.Worker.Drain.{arrivals, concat, stop_drains}
use vahak.Store.Worker.Sizes.{stop_sizes}
use vahak.Forwarder.Sweep.{Round, persist, process_pending_jobs}
use vahak.Forwarder.Workers.{Service, sweep_of, sweep_and_serve, sweep_is_served}
use vahak.Forwarder.Sweep.Conserves.{sweep_conserves}
use vahak.Forwarder.Flusher.{
  delivers, ticks as clock, new_flusher, flusher_run, flusher_stop, joined, delivered_ids,
  flush_limit, flusher_marks_each,
}
use vahak.Queue.{new_job_queue}
use vahak.Tests.Fixtures.{
  idle_forwarder, world_with, empty_json, sample_db, captured_item, captured_job,
}

abbrev history : List Call
history =
    creates_endpoint none 1 5 "orders" "http://shop" ""
    ∷ flushes no_faults (captured_item ∷ [])
    ∷ claims none 100 15 100
    ∷ saves_job none captured_job
    ∷ prunes none none 1000 7
    ∷ []

after_calls-IsConsistent_run : IsConsistent (after_calls empty_json history empty_db)
after_calls-IsConsistent_run = after_calls-IsConsistent empty_json history

abbrev events : List Event
events =
    arrives captured_item ∷ arrives captured_item ∷ receives ∷ ticks ∷ arrives captured_item ∷ []

stop_drains_run :
    let w = stop (work_all sqlite_limit events new_worker) in
    (concat w.batches ≡ arrivals events) × (w.buffer ≡ []) × (w.ingest_ch ≡ [])
stop_drains_run = stop_drains sqlite_limit events

stop_sizes_example :
    All
      (λ b. (1 ≤ length b) × (length b ≤ sqlite_limit))
      (stop (work_all sqlite_limit events new_worker)).batches
stop_sizes_example = stop_sizes sqlite_limit events (omega arith)

abbrev round : Round
round = record { stopped = false; claim_fault = none; now = 100; cut = none }

sweep_conserves_run :
    let s =
      process_pending_jobs
        (sqlite_storage empty_json)
        (round ∷ [])
        (record { store = sample_db; queue = new_job_queue 1; spawned = []; claimed = [] }) in
    (s.queue.jobs ++ s.spawned ≡ map persist s.claimed)
    × ((s.spawned ≡ []) ⊎ (ltb (length s.queue.jobs) s.queue.size ≡ false))
sweep_conserves_run =
    sweep_conserves (sqlite_storage empty_json) (round ∷ []) sample_db (new_job_queue 1) (refl, tt)

flusher_marks_each_example :
    let f = flusher_stop (flusher_run (delivers 5 ∷ clock ∷ []) new_flusher) in
    (joined f.calls ++ f.ids ≡ delivered_ids (delivers 5 ∷ clock ∷ []))
    × (f.ids ≡ [])
    × All (λ c. (1 ≤ length c) × (length c ≤ flush_limit)) f.calls
flusher_marks_each_example = flusher_marks_each (delivers 5 ∷ clock ∷ [])

-- A queue of one place: the second job that the sweep claims gets a goroutine.
abbrev service : Service (sqlite_storage empty_json)
service = record { forwarder = idle_forwarder; queue = new_job_queue 1; handled = [] }

abbrev late_round : Round
late_round = record round { now = 1000 }

queued : length (sweep_of (sqlite_storage empty_json) (late_round ∷ []) service).queue.jobs ≡ 1
unfolding process_pending_jobs vahak.Store.Sqlite.Jobs.claim_pending_jobs vahak.Prelude.select
    vahak.Store.Db.update_jobs vahak.Prelude.update_where vahak.Prelude.any
    vahak.Store.Claim.due_jobs vahak.Prelude.Sort.sort_by vahak.Prelude.Sort.insert_by
    vahak.Queue.push
queued = refl

spawned : length (sweep_of (sqlite_storage empty_json) (late_round ∷ []) service).spawned ≡ 1
unfolding process_pending_jobs vahak.Store.Sqlite.Jobs.claim_pending_jobs vahak.Prelude.select
    vahak.Store.Db.update_jobs vahak.Prelude.update_where vahak.Prelude.any
    vahak.Store.Claim.due_jobs vahak.Prelude.Sort.sort_by vahak.Prelude.Sort.insert_by
    vahak.Queue.push
spawned = refl

sweep_is_served_example :
    let t =
      sweep_and_serve
        (sqlite_storage empty_json)
        (late_round ∷ [])
        (world_with (some 503) ∷ [])
        (world_with (some 200) ∷ [])
        service in
    (t.queue.jobs ≡ [])
    × (t.handled
        ≡ map persist (sweep_of (sqlite_storage empty_json) (late_round ∷ []) service).claimed)
sweep_is_served_example =
    sweep_is_served (sqlite_storage empty_json) (late_round ∷ []) (world_with (some 503) ∷ [])
      (world_with (some 200) ∷ []) service (refl, tt) (omega (arith, queued))
      (omega (arith, spawned))

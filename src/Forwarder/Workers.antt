-- ===== src/Forwarder/Workers.antt =====
-- Start of internal/forwarder/forwarder.go: the workers that take jobs from the queue, and the
-- goroutines that a sweep starts when the queue is full. The calls of processJob run one after the
-- other here.
use vahak.Prelude.{All, none, ◌≤◌, ◌≡◌, refl, sym, ap, ◌∙◌, List, [], ◌∷◌, ◌++◌, map, length, arith}
use mathlib.Core.List.{append_assoc, append-nil}
use vahak.Models.{DeliveryJob}
use vahak.Queue.{JobQueue}
use vahak.Store.Storage.{Storage}
use vahak.Forwarder.{World, Forwarder, process_job}
use vahak.Forwarder.Sweep.{Round, Sweep, persist, process_pending_jobs}
use vahak.Forwarder.Sweep.Conserves.{sweep_conserves}

module _ (storage : Storage) where
  -- `handled` lists what processJob was called with, the oldest first.
  pub record Service : Type 0 where
    pub forwarder : Forwarder storage
    pub queue : JobQueue
    pub handled : List DeliveryJob

  unfoldable pub handle : World → DeliveryJob → Service → Service
  handle w job s = record s {
    forwarder = process_job storage w job s.forwarder;
    handled = s.handled ++ job ∷ [];
  }

  -- The receive of a worker, which waits if the queue is empty.
  unfoldable pub take_from : List DeliveryJob → World → Service → Service
  unfolding handle
  take_from [] w s = s
  take_from (job ∷ jobs) w s = handle w job (record s { queue = record s.queue { jobs = jobs } })

  unfoldable pub worker_turns : List World → Service → Service
  unfolding take_from
  worker_turns [] s = s
  worker_turns (w ∷ ws) s = worker_turns ws (take_from s.queue.jobs w s)

  -- `go f.processJob`.
  unfoldable pub spawn_all : List World → List DeliveryJob → Service → Service
  unfolding handle
  spawn_all ws [] s = s
  spawn_all [] (job ∷ jobs) s = s
  spawn_all (w ∷ ws) (job ∷ jobs) s = spawn_all ws jobs (handle w job s)

  abbrev pub sweep_of : List Round → Service → Sweep storage
  sweep_of rounds s =
      process_pending_jobs storage rounds
        (record { store = s.forwarder.store; queue = s.queue; spawned = []; claimed = [] })

  -- One sweep, the turns of the workers after it, and the goroutines that it has started.
  unfoldable pub sweep_and_serve : List Round → List World → List World → Service → Service
  unfolding worker_turns spawn_all
  sweep_and_serve rounds turns spawns s =
      let sw = sweep_of rounds s in
      spawn_all spawns sw.spawned (
        worker_turns turns
          (record s { forwarder = record s.forwarder { store = sw.store }; queue = sw.queue }))

  worker_turns-handled :
      (ws : List World) (jobs : List DeliveryJob) (s : Service)
      → s.queue.jobs ≡ jobs
      → length jobs ≤ length ws
      → let t = worker_turns ws s in (t.queue.jobs ≡ []) × (t.handled ≡ s.handled ++ jobs)
  unfolding worker_turns take_from handle
  worker_turns-handled [] [] s e enough = (e, sym (append-nil s.handled))
  worker_turns-handled [] (job ∷ jobs) s e enough = absurd (omega (arith, enough))
  worker_turns-handled (w ∷ ws) [] s e enough = rw e (
      worker_turns-handled ws [] (record s { queue = record s.queue { jobs = [] } }) refl
        (omega arith))
  worker_turns-handled (w ∷ ws) (job ∷ jobs) s e enough =
      let taken = handle w job (record s { queue = record s.queue { jobs = jobs } }) in
      let (empty, all) = worker_turns-handled ws jobs taken refl (omega (arith, enough)) in
      rw e (empty, all ∙ append_assoc s.handled (job ∷ []) jobs)

  spawn_all-handled :
      (ws : List World) (jobs : List DeliveryJob) (s : Service)
      → length jobs ≤ length ws
      → let t = spawn_all ws jobs s in (t.queue ≡ s.queue) × (t.handled ≡ s.handled ++ jobs)
  unfolding spawn_all handle
  spawn_all-handled ws [] s enough = (refl, sym (append-nil s.handled))
  spawn_all-handled [] (job ∷ jobs) s enough = absurd (omega (arith, enough))
  spawn_all-handled (w ∷ ws) (job ∷ jobs) s enough =
      let (same, all) = spawn_all-handled ws jobs (handle w job s) (omega (arith, enough)) in
      (same, all ∙ append_assoc s.handled (job ∷ []) jobs)

  -- Whatever is in the queue, however many rounds a sweep makes and whatever the driver refuses in
  -- them: if the context is not done while a round hands over, the workers take as many turns
  -- afterwards as the queue has jobs, and each goroutine that the sweep started runs, then the queue
  -- is empty, and processJob has been called once with each job that was in the queue and then once
  -- with each job that ClaimPendingJobs has returned, in that order, and marked as persisted.
  pub sweep_is_served :
      (rounds : List Round) (turns spawns : List World) (s : Service)
      → All (λ r. r.cut ≡ none) rounds
      → length (sweep_of rounds s).queue.jobs ≤ length turns
      → length (sweep_of rounds s).spawned ≤ length spawns
      → let t = sweep_and_serve rounds turns spawns s in
        (t.queue.jobs ≡ [])
        × (t.handled ≡ s.handled ++ (s.queue.jobs ++ map persist (sweep_of rounds s).claimed))
  unfolding sweep_and_serve
  sweep_is_served rounds turns spawns s uncut workers goroutines =
      let sw = sweep_of rounds s in
      let swept = record s {
        forwarder = record s.forwarder { store = sw.store };
        queue = sw.queue;
      } in
      let (empty, queued) = worker_turns-handled turns sw.queue.jobs swept refl workers in
      let (same, spawned) =
        spawn_all-handled spawns sw.spawned (worker_turns turns swept) goroutines in
      let conserved = (sweep_conserves storage rounds s.forwarder.store s.queue uncut).0 in
      (
        ap (λ q. q.jobs) same ∙ empty,
        spawned
            ∙ ap (λ l. l ++ sw.spawned) queued
            ∙ append_assoc s.handled sw.queue.jobs sw.spawned
            ∙ ap (λ l. s.handled ++ l) conserved,
      )

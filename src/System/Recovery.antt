-- ===== src/System/Recovery.antt =====
-- After a crash: a sweep, one attempt that the target takes, and the flusher
-- (internal/forwarder/forwarder.go).
use vahak.Prelude.{
  ==_iff, ◌==◌, Memᴰ, ◌<◌, length, ◌≤◌, ℕ, zero, ◌≡◌, refl, sym, ap, ◌∙◌, true, none, some, List,
  [], ◌∷◌, ◌++◌, arith, any, lookup, insert, erase, nat_eq,
}
use vahak.Models.{pending, Uuid, Time, Request, DeliveryJob, delivered}
use vahak.Circuit.{allow, get, breaker_allow}
use vahak.Store.Db.{JobRow}
use vahak.Store.Error.{ok}
use vahak.Store.Engine.{Engine}
use vahak.Forwarder.Deliver.{OutgoingRequest, deliver, deliver-true}
use vahak.Forwarder.{World, prepare, on_delivered}
use vahak.Forwarder.Phases.{start_job, prepared, admitted, advance, permitted}
use vahak.Forwarder.Sweep.{persist}
use vahak.System.{System, Step, step, run, store_of, collect, landed, fly, take_flight}

module _ (engine : Engine) where
  open engine use {storage}

  -- The process comes up again, sweeps, hands the job to a worker, whose call ends, and the flusher
  -- marks what it was told of.
  abbrev pub recovery : Time → ℕ → ℕ → World → DeliveryJob → Time → List (Step engine)
  recovery swept lease limit w job marked =
      Step.restarts
      ∷ Step.sweeps none swept lease limit
      ∷ Step.starts w job
      ∷ Step.goes_on zero
      ∷ Step.goes_on zero
      ∷ Step.collects
      ∷ Step.marks none marked
      ∷ []

  recovery-ends :
      (swept : Time) (lease limit : ℕ) (w : World) (job : DeliveryJob) (req : Request)
      (marked : Time) (s : System engine)
      → let st = (storage.claim_pending_jobs none swept lease limit (store_of engine s)).0 in
        prepare storage w job st ≡ some req
        → (deliver w.http w.delivery_id job.target_url req).1 ≡ true
        → job.persisted ≡ true
        → let t = run engine (recovery swept lease limit w job marked) s in
          (t.forwarder.sent
            ≡ (deliver w.http w.delivery_id job.target_url req).0 ++ s.forwarder.sent)
          × (t.flights ≡ [])
          × (t.forwarder.processing ≡ [])
          × (store_of engine t ≡ (storage.batch_mark_delivered none marked (job.id ∷ []) st).0)
  unfolding run step landed fly take_flight collect start_job prepared admitted advance permitted
      allow get breaker_allow lookup insert erase on_delivered
  recovery-ends swept lease limit w job req marked s ready taken stored =
      rw ready (rw taken (rw stored (refl, refl, ground arith, refl)))

  -- Whatever the server was doing when it went down, and with either engine, one sweep and one
  -- attempt after the restart settle a job that is pending and due in a store that keeps its
  -- constraints, if the claim returns fewer jobs than its limit: one of them is a copy of the job;
  -- and if each copy of it can be prepared from the store that the claim leaves and its target takes
  -- the request, and the driver refuses neither the claim nor the mark, then once a worker has taken
  -- the copy, marked as persisted, and the flusher has marked it, one request more has been sent, to
  -- the target that the store had for the job and with a 2xx, no call is on its way, no job is
  -- locked, and the job is gone from the store or stands there as delivered.
  pub recovers :
      (swept : Time) (lease limit : ℕ) (w : World) (k : Uuid) (row : JobRow)
      (jobs : List DeliveryJob) (marked : Time) (s : System engine)
      → engine.Sound (store_of engine s)
      → storage.job_at k (store_of engine s) ≡ some row
      → row.status ≡ pending
      → row.next_attempt ≤ swept
      → (storage.claim_pending_jobs none swept lease limit (store_of engine s)).1 ≡ ok jobs
      → length jobs < limit
      → ((job : DeliveryJob)
          → Memᴰ job jobs
          → job.id ≡ k
          → (req : Request) × (prepare storage w
                (persist job)
                (storage.claim_pending_jobs none swept lease limit (store_of engine s)).0
              ≡ some req)
            × ((deliver w.http w.delivery_id job.target_url req).1 ≡ true))
      → (job : DeliveryJob) × Memᴰ job jobs
        × (job.id ≡ k)
        × (let t = run engine (recovery swept lease limit w (persist job) marked) s in
            ((out : OutgoingRequest) × (t.forwarder.sent ≡ (out, true) ∷ s.forwarder.sent)
              × (out.url ≡ row.target_url))
            × (t.flights ≡ [])
            × (t.forwarder.processing ≡ [])
            × ((after : JobRow)
                → storage.job_at k (store_of engine t) ≡ some after
                → after.status ≡ delivered))
  unfolding any
  recovers swept lease limit w k row jobs marked s sound there waiting due claimed few serves =
      let (job, m, same, target) =
        engine.claim-hands k swept lease limit jobs _ sound claimed few row there waiting due in
      let (req, ready, taken) = serves job m same in
      let (log, idle, free, kept) =
        recovery-ends swept lease limit w (persist job) req marked s ready taken refl in
      let (out, logged, url) = deliver-true w.http w.delivery_id job.target_url req taken in
      (
        job,
        m,
        same,
        (
          (out, log ∙ ap (λ l. l ++ s.forwarder.sent) logged, url ∙ target),
          idle,
          free,
          λ after found.
              storage.mark-done marked (job.id ∷ []) _ k after
                (let hit : (job.id == k) ≡ true = (==_iff job.id k).1 same in rw hit refl)
                (ap (storage.job_at k) (sym kept) ∙ found),
        ),
      )

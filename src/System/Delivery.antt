-- ===== src/System/Delivery.antt =====
-- At least once: what becomes of a job that is pending, whatever the goroutines do
-- (internal/forwarder/forwarder.go, internal/store/sqlite.go, internal/store/store.go).
use vahak.Prelude.{
  ℕ, ◌+◌, ◌≤◌, ◌≡◌, refl, sym, ap, subst, ◌∙◌, ◌⊎◌, inl, inr, true, false, Option, none, some, List,
  [], ◌∷◌, any,
}
use vahak.Models.{Uuid, failed}
use vahak.Retry.{max_attempts}
use vahak.Store.Db.{JobRow}
use vahak.Store.Engine.{Engine}
use vahak.Forwarder.Deliver.{OutgoingRequest}
use vahak.Forwarder.Phases.{Flight, job_of, start_job}
use vahak.Forwarder.Phases.Course.{start_job-keeps}
use vahak.System.Landing.{is_marked, Pends, Landing, collect-Pends, with_store-Pends, fly-Landing}
use vahak.System.Flights.{is_winner, any-take_flight, put_flight-unwon}
use vahak.System.{Cause, System, Step, step, run, store_of, take_flight, put_flight, landed, fly}

module _ (engine : Engine) where
  open engine use {storage}

  -- The step is one of a call of processJob for the job, that sends one request, to the job's
  -- target, and gets a 2xx, or that gives the job up at the last attempt; or it deletes the endpoint
  -- that the job's webhook was for.
  pub data Settles (k : Uuid) (s : System engine) : Step engine → Type 0 where
    delivered_by :
        (n : ℕ) (flight : Flight) (out : OutgoingRequest)
        → (take_flight n s.flights).0 ≡ some flight
        → (job_of flight).id ≡ k
        → (step engine (Step.goes_on n) s).forwarder.sent ≡ (out, true) ∷ s.forwarder.sent
        → out.url ≡ (job_of flight).target_url
        → Settles k s (Step.goes_on n)
    given_up_by :
        (n : ℕ) (flight : Flight) (row : JobRow)
        → (take_flight n s.flights).0 ≡ some flight
        → (job_of flight).id ≡ k
        → storage.job_at k (store_of engine (step engine (Step.goes_on n) s)) ≡ some row
        → row.status ≡ failed
        → row.attempts ≡ (job_of flight).attempts + 1
        → max_attempts ≤ (job_of flight).attempts + 1
        → Settles k s (Step.goes_on n)
    deleted_by :
        (fault : Option Cause) (id : Uuid)
        → engine.Owner id k (store_of engine s)
        → Settles k s (Step.deletes_endpoint fault id)

  -- Some step of the run settles the job.
  pub data Settled (k : Uuid) : List (Step engine) → System engine → Type 0 where
    at_once :
        (e : Step engine) (es : List (Step engine)) (s : System engine)
        → Settles k s e
        → Settled k (e ∷ es) s
    afterwards :
        (e : Step engine) (es : List (Step engine)) (s : System engine)
        → Settled k es (step engine e s)
        → Settled k (e ∷ es) s

  goes_on-Pends :
      (k : Uuid) (n : ℕ) (taken : Option Flight) (others : List Flight) (s : System engine)
      → take_flight n s.flights ≡ (taken, others)
      → any (is_winner k) (put_flight taken others) ≡ false
      → Pends engine k s
      → Pends engine k (step engine (Step.goes_on n) s) ⊎ Settles k s (Step.goes_on n)
  unfolding step fly
  goes_on-Pends k n none others s e unwon p =
      inl (subst (λ x. Pends engine k (fly engine x s)) (sym e) p)
  goes_on-Pends k n (some flight) others s e unwon p =
      let moved : step engine (Step.goes_on n) s ≡ fly engine (some flight, others) s =
        ap (λ x. fly engine x s) e in
      let taken = ap (λ x. x.0) e in
      elim (fly-Landing engine k flight others s unwon p) [
        | Landing.pends q ↦ inl (subst (Pends engine k) (sym moved) q)
        | Landing.arrives out own logged url ↦
            inr
              (delivered_by n flight out taken own (ap (λ t. t.forwarder.sent) moved ∙ logged) url)
        | Landing.fails row own there f a m ↦ inr (
            given_up_by n flight row taken own
              (ap (λ t. storage.job_at k (store_of engine t)) moved ∙ there) f a m)
      ]

  step-Pends :
      (k : Uuid) (e : Step engine) (s : System engine)
      → Pends engine k s
      → Pends engine k (step engine e s) ⊎ Settles k s e
  unfolding step landed any
  step-Pends k (Step.creates_endpoint fault id now name url script) s p = inl (
      with_store-Pends engine k _ s
        (engine.create_endpoint-Pending k fault id now name url script (store_of engine s)
          p.waits_still)
        p)
  step-Pends k (Step.updates_endpoint fault read_fault id name url script) s p = inl (
      with_store-Pends engine k _ s
        (engine.update_endpoint-Pending k fault read_fault id name url script (store_of engine s)
          p.waits_still)
        p)
  step-Pends k (Step.deletes_endpoint fault id) s p =
      elim (engine.delete_endpoint-Pending k fault id (store_of engine s) p.waits_still) [
        | inl still ↦ inl (with_store-Pends engine k _ s still p)
        | inr owner ↦ inr (deleted_by fault id owner)
      ]
  step-Pends k (Step.replays fault id now request_id url) s p = inl (
      with_store-Pends engine k _ s
        (engine.create_job-Pending k fault id now request_id url (store_of engine s) p.waits_still)
        p)
  step-Pends k (Step.ingests faults items) s p = inl (
      with_store-Pends engine k _ s
        (engine.flush-Pending k faults items (store_of engine s) p.waits_still) p)
  step-Pends k (Step.sweeps fault now lease limit) s p = inl (
      with_store-Pends engine k _ s
        (engine.claim-Pending k fault now lease limit (store_of engine s) p.waits_still) p)
  step-Pends k (Step.starts w job) s p =
      let next = (start_job storage w job s.forwarder).1 in
      let (same, ch, unwon) = start_job-keeps storage w job s.forwarder in
      let (row, there, waiting) = p.waits_still in
      inl (record {
        waits_still = (row, ap (storage.job_at k) same ∙ there, waiting);
        unmarked_ch = ap (is_marked k) ch ∙ p.unmarked_ch;
        unmarked_ids = p.unmarked_ids;
        unwon = put_flight-unwon k next s.flights unwon p.unwon;
      })
  step-Pends k (Step.goes_on n) s p =
      let (taken, others) = take_flight n s.flights in
      goes_on-Pends k n taken others s refl (any-take_flight (is_winner k) n s.flights ∙ p.unwon) p
  step-Pends k Step.collects s p = inl (collect-Pends engine k s.forwarder.delivered_ch s refl p)
  step-Pends k (Step.marks fault now) s p =
      let (row, there, waiting) = p.waits_still in
      inl (record {
        waits_still = (
          row,
          storage.mark-other fault now s.ids (store_of engine s) k p.unmarked_ids ∙ there,
          waiting,
        );
        unmarked_ch = p.unmarked_ch;
        unmarked_ids = refl;
        unwon = p.unwon;
      })
  step-Pends k (Step.prunes requests_fault jobs_fault now days) s p = inl (
      with_store-Pends engine k _ s
        (engine.prune-Pending k requests_fault jobs_fault now days (store_of engine s)
          p.waits_still)
        p)
  step-Pends k Step.restarts s p = inl (record {
    waits_still = p.waits_still;
    unmarked_ch = refl;
    unmarked_ids = refl;
    unwon = refl;
  })

  -- A job that is pending in the store, that nobody is about to mark as delivered, and for which no
  -- call of processJob has its 2xx yet, is never lost, with either engine. Take any run of sweeps,
  -- batches, calls of processJob for any jobs, which interleave with each other and with all the
  -- rest, collections and marks of the flusher, prunings, replays, new, changed and deleted
  -- endpoints, and restarts in the middle of all this, in any order and with any refusals: at its
  -- end the job is pending as before; or in its course a call of processJob for the job sent a
  -- request to the job's target that was answered with a 2xx, or saved the job as failed with at
  -- least `max_attempts` attempts; or the endpoint that the job's webhook was for was deleted.
  pub at_least_once :
      (k : Uuid) (es : List (Step engine)) (s : System engine)
      → Pends engine k s
      → Pends engine k (run engine es s) ⊎ Settled k es s
  unfolding run
  at_least_once k [] s p = inl p
  at_least_once k (e ∷ es) s p = elim (step-Pends k e s p) [
    | inr done ↦ inr (at_once e es s done)
    | inl waiting ↦ elim (at_least_once k es (step engine e s) waiting) [
      | inl still ↦ inl still
      | inr done ↦ inr (afterwards e es s done)
    ]
  ]

-- ===== src/Forwarder/Failure.antt =====
-- processJob after a failed attempt (internal/forwarder/forwarder.go).
use vahak.Prelude.{
  ℕ, ◌+◌, ◌*◌, ◌^◌, ◌≤◌, ◌<◌, ◌≡◌, refl, sym, ap, subst, ◌∙◌, inl, inr, true, false, none, some,
  arith, Bool-cases, lookup, nat_eq, leb,
}
use vahak.Models.{second, Request, DeliveryJob, pending, failed}
use vahak.Circuit.{allow}
use vahak.Retry.{max_attempts, next_attempt_bounds}
use vahak.Store.Error.{ok}
use vahak.Store.Db.{JobRow}
use vahak.Store.Storage.{Storage}
use vahak.Forwarder.Deliver.{deliver}
use vahak.Forwarder.Survival.{after_failure-id}
use vahak.Forwarder.{
  World, Forwarder, prepare, after_failure, settle, attempt, dispatch, body, process_job,
}

after_failure-counts :
    (w : World) (job : DeliveryJob)
    → ((base : ℕ) → w.jitter base ≤ base)
    → let after = after_failure w job in
      (after.attempts ≡ job.attempts + 1)
      × (after.last_attempt ≡ some w.finished)
      × (max_attempts ≤ job.attempts + 1 → after.status ≡ failed)
      × (job.attempts + 1 < max_attempts
          → (after.status ≡ pending)
            × (w.finished ≤ after.next_attempt)
            × (after.next_attempt ≤ w.finished + second * 4 ^ (job.attempts + 1)))
unfolding after_failure
after_failure-counts w job jitter =
    let bounds = next_attempt_bounds w.jitter w.finished (job.attempts + 1) jitter (omega arith) in
    elim (Bool-cases (leb max_attempts (job.attempts + 1))) [
      | inl last ↦ rw last (refl, refl, λ _. refl, λ m. absurd (ground arith))
      | inr more ↦ rw more (refl, refl, λ m. absurd (ground arith), λ _. (refl, bounds.0, bounds.1))
    ]

module _ (storage : Storage) where
  open storage use {State, job_at, get_request, save_delivery_job, save-ok, get_request-id}

  attempt_refused :
      (w : World) (job : DeliveryJob) (req : Request) (f : Forwarder storage)
      → (deliver w.http w.delivery_id job.target_url req).1 ≡ false
      → (attempt storage w job req f).store
        ≡ (save_delivery_job w.save_fault w.finished (after_failure w job) f.store).0
  unfolding attempt settle
  attempt_refused w job req f refused = rw (refused, settle)

  process_refused :
      (w : World) (job : DeliveryJob) (req : Request) (f : Forwarder storage)
      → lookup job.id f.processing ≡ none
      → prepare storage w job f.store ≡ some req
      → (allow f.circuits job.target_url w.now).0 ≡ true
      → (deliver w.http w.delivery_id job.target_url req).1 ≡ false
      → (process_job storage w job f).store
        ≡ (save_delivery_job w.save_fault w.finished (after_failure w job) f.store).0
  unfolding process_job body dispatch
  process_refused w job req f free ready permitted refused =
      rw (free, process_job)
        (rw (ready, body) (rw (permitted, dispatch) (attempt_refused w job req _ refused)))

  -- The failed attempt is counted in the store: the job is there with one attempt more and the time
  -- of the failure; it is failed if that makes `max_attempts`, and otherwise pending, due between
  -- now and 4^attempts seconds later. The attempt is one that the circuit permits and the network
  -- refuses, on a job that nobody else processes, with a store that takes the write and a jitter
  -- that is at most the base it scales.
  pub failure_counted :
      (w : World) (job : DeliveryJob) (req : Request) (f : Forwarder storage)
      → lookup job.id f.processing ≡ none
      → prepare storage w job f.store ≡ some req
      → (allow f.circuits job.target_url w.now).0 ≡ true
      → (deliver w.http w.delivery_id job.target_url req).1 ≡ false
      → (save_delivery_job w.save_fault w.finished (after_failure w job) f.store).1 ≡ ok tt
      → ((base : ℕ) → w.jitter base ≤ base)
      → (row : JobRow) × (job_at job.id (process_job storage w job f).store ≡ some row)
        × (row.attempts ≡ job.attempts + 1)
        × (row.last_attempt ≡ some w.finished)
        × (max_attempts ≤ job.attempts + 1 → row.status ≡ failed)
        × (job.attempts + 1 < max_attempts
            → (row.status ≡ pending)
              × (w.finished ≤ row.next_attempt)
              × (row.next_attempt ≤ w.finished + second * 4 ^ (job.attempts + 1)))
  failure_counted w job req f free ready permitted refused saved jitter =
      let (row, there, same) =
        save-ok w.save_fault w.finished (after_failure w job) f.store saved in
      let found : job_at job.id (process_job storage w job f).store ≡ some row =
        ap (job_at job.id) (process_refused w job req f free ready permitted refused)
        ∙ subst
            (λ k.
              job_at k (save_delivery_job w.save_fault w.finished (after_failure w job) f.store).0
              ≡ some row)
            (after_failure-id w job) there in
      let (count, last, gave_up, retry) = after_failure-counts w job jitter in
      (
        row,
        found,
        same.saved_attempts ∙ count,
        same.saved_last ∙ last,
        λ m. same.saved_status ∙ gave_up m,
        λ m.
            let (p, low, high) = retry m in
            (
              same.saved_status ∙ p,
              subst (λ t. w.finished ≤ t) (sym same.saved_next) low,
              subst (λ t. t ≤ w.finished + second * 4 ^ (job.attempts + 1)) (sym same.saved_next)
                  high,
            ),
      )

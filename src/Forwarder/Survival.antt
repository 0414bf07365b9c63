-- ===== src/Forwarder/Survival.antt =====
-- What processJob may do to a job that waits in the store (internal/forwarder/forwarder.go).
use vahak.Prelude.{
  ℕ, ◌+◌, ◌≤◌, ◌≡◌, refl, ap, subst, ◌∙◌, ◌⊎◌, inl, inr, Bool, true, some, List, ◌∷◌, ◌++◌, arith,
  Bool-cases, Option-cases, lookup, nat_eq,
}
use vahak.Models.{Uuid, Request, DeliveryJob, pending, failed}
use vahak.Circuit.{allow, record_success}
use vahak.Retry.{max_attempts}
use vahak.Store.Error.{Result-cases}
use vahak.Store.Db.{JobRow}
use vahak.Store.Storage.{Storage, IsSaved}
use vahak.Forwarder.Deliver.{OutgoingRequest, deliver, deliver-true}
use vahak.Forwarder.{
  World, Forwarder, prepare, postponed, after_failure, save, on_delivered, settle, attempt,
  dispatch, body, process_job,
}

pub after_failure-id : (w : World) (job : DeliveryJob) → (after_failure w job).id ≡ job.id
unfolding after_failure
after_failure-id w job = ground arith

after_failure-cases :
    (w : World) (job : DeliveryJob)
    → (((after_failure w job).status ≡ failed)
        × ((after_failure w job).attempts ≡ job.attempts + 1)
        × (max_attempts ≤ job.attempts + 1))
      ⊎ ((after_failure w job).status ≡ pending)
unfolding after_failure
after_failure-cases w job = ground arith

module _ (storage : Storage) where
  open storage use {State, job_at, save_delivery_job, save-ok, save-err}

  -- What became of a job that was pending in `f`, in `g`.
  pub data Fate (job : DeliveryJob) (f g : Forwarder storage) : Type 0 where
    waits :
        (row : JobRow)
        → job_at job.id g.store ≡ some row
        → row.status ≡ pending
        → g.delivered_ch ≡ f.delivered_ch
        → Fate job f g
    arrived :
        (out : OutgoingRequest)
        → g.sent ≡ (out, true) ∷ f.sent
        → out.url ≡ job.target_url
        → Fate job f g
    exhausted :
        (row : JobRow)
        → job_at job.id g.store ≡ some row
        → row.status ≡ failed
        → row.attempts ≡ job.attempts + 1
        → max_attempts ≤ job.attempts + 1
        → Fate job f g

  save-job :
      (w : World) (now : ℕ) (job : DeliveryJob) (f : Forwarder storage)
      → ((row : JobRow) × (job_at job.id (save storage w now job f).store ≡ some row)
          × IsSaved job row)
        ⊎ (job_at job.id (save storage w now job f).store ≡ job_at job.id f.store)
  save-job w now job f = elim (Result-cases (save_delivery_job w.save_fault now job f.store).1) [
    | inl (u, e) ↦ inl (save-ok w.save_fault now job f.store e)
    | inr (c, e) ↦ inr (ap (job_at job.id) (save-err w.save_fault now job f.store c e))
  ]

  pub on_delivered-sent :
      (w : World) (job : DeliveryJob) (f : Forwarder storage)
      → (on_delivered storage w job f).sent ≡ f.sent
  unfolding on_delivered
  on_delivered-sent w job f = ground arith

  pub failure-Fate :
      (w : World) (job : DeliveryJob) (f g : Forwarder storage) (row : JobRow)
      → g.delivered_ch ≡ f.delivered_ch
      → job_at job.id g.store ≡ some row
      → row.status ≡ pending
      → Fate job f (save storage w w.finished (after_failure w job) g)
  failure-Fate w job f g row ch e p = elim (save-job w w.finished (after_failure w job) g) [
    | inl (saved, there, same) ↦
        let found : job_at job.id (save storage w w.finished (after_failure w job) g).store
            ≡ some saved =
          subst
            (λ k. job_at k (save storage w w.finished (after_failure w job) g).store ≡ some saved)
            (after_failure-id w job) there in
        elim (after_failure-cases w job) [
          | inl (f', a', m') ↦
              exhausted saved found (same.saved_status ∙ f') (same.saved_attempts ∙ a') m'
          | inr p' ↦ waits saved found (same.saved_status ∙ p') ch
        ]
    | inr unchanged ↦
        waits row
          (subst
              (λ k.
                job_at k (save storage w w.finished (after_failure w job) g).store
                ≡ job_at k g.store)
              (after_failure-id w job) unchanged
            ∙ e)
          p ch
  ]

  success-Fate :
      (w : World) (job : DeliveryJob) (f g : Forwarder storage) (out : OutgoingRequest)
      → g.sent ≡ (out, true) ∷ f.sent
      → out.url ≡ job.target_url
      → Fate job f (on_delivered storage w job g)
  success-Fate w job f g out e url = arrived out (on_delivered-sent w job g ∙ e) url

  attempt-Fate :
      (w : World) (job : DeliveryJob) (req : Request) (f g : Forwarder storage) (row : JobRow)
      → g.sent ≡ f.sent
      → g.delivered_ch ≡ f.delivered_ch
      → job_at job.id g.store ≡ some row
      → row.status ≡ pending
      → Fate job f (attempt storage w job req g)
  unfolding attempt settle
  attempt-Fate w job req f g row same ch e p =
      elim (Bool-cases (deliver w.http w.delivery_id job.target_url req).1) [
        | inl success ↦
            let (out, logged, url) = deliver-true w.http w.delivery_id job.target_url req success in
            rw (success, settle)
              (success-Fate w job f
                (record g {
                  circuits = record_success g.circuits job.target_url;
                  sent = (deliver w.http w.delivery_id job.target_url req).0 ++ g.sent;
                })
                out
                (ap (λ l. l ++ g.sent) logged
                  ∙ ap (λ (l : List (OutgoingRequest × Bool)). (out, true) ∷ l) same)
                url)
        | inr failure ↦ rw (failure, settle) (failure-Fate w job f _ row ch e p)
      ]

  pub postponed-Fate :
      (w : World) (job : DeliveryJob) (f g : Forwarder storage) (row : JobRow)
      → g.delivered_ch ≡ f.delivered_ch
      → job_at job.id g.store ≡ some row
      → row.status ≡ pending
      → Fate job f (save storage w w.now (postponed w job) g)
  postponed-Fate w job f g row ch e p = elim (save-job w w.now (postponed w job) g) [
    | inl (saved, there, same) ↦ waits saved there same.saved_status ch
    | inr unchanged ↦ waits row (unchanged ∙ e) p ch
  ]

  dispatch-Fate :
      (w : World) (job : DeliveryJob) (req : Request) (f g : Forwarder storage) (row : JobRow)
      → g.sent ≡ f.sent
      → g.delivered_ch ≡ f.delivered_ch
      → job_at job.id g.store ≡ some row
      → row.status ≡ pending
      → Fate job f (dispatch storage w job req g)
  unfolding dispatch
  dispatch-Fate w job req f g row same ch e p =
      elim (Bool-cases (allow g.circuits job.target_url w.now).0) [
        | inl yes_now ↦ rw yes_now (attempt-Fate w job req f _ row same ch e p)
        | inr not_now ↦ rw not_now (postponed-Fate w job f _ row ch e p)
      ]

  body-Fate :
      (w : World) (job : DeliveryJob) (f g : Forwarder storage) (row : JobRow)
      → g.sent ≡ f.sent
      → g.delivered_ch ≡ f.delivered_ch
      → job_at job.id g.store ≡ some row
      → row.status ≡ pending
      → Fate job f (body storage w job g)
  unfolding body
  body-Fate w job f g row same ch e p = elim (Option-cases (prepare storage w job g.store)) [
    | inl nothing ↦ rw (nothing, body) (waits row e p ch)
    | inr (req, ready) ↦ rw (ready, body) (dispatch-Fate w job req f g row same ch e p)
  ]

  release-Fate :
      (job : DeliveryJob) (f g : Forwarder storage) (processing : List (Uuid × Bool))
      → Fate job f g
      → Fate job f (record g { processing = processing })
  release-Fate job f g processing (waits row e p ch) = waits row e p ch
  release-Fate job f g processing (arrived out e u) = arrived out e u
  release-Fate job f g processing (exhausted row e s a m) = exhausted row e s a m

  -- Whatever the store, the network, the transformer and the clock answer, a job that is pending
  -- in the store is, after processJob, still pending there; or a request to its target was the one
  -- thing sent, and a 2xx came back; or it stands as failed with one more attempt than the call
  -- was given, which makes at least `max_attempts`.
  pub process_job-Fate :
      (w : World) (job : DeliveryJob) (f : Forwarder storage) (row : JobRow)
      → job_at job.id f.store ≡ some row
      → row.status ≡ pending
      → Fate job f (process_job storage w job f)
  unfolding process_job
  process_job-Fate w job f row e p = elim (Option-cases (lookup job.id f.processing)) [
    | inl free ↦
        rw (free, process_job) (release-Fate job f _ _ (body-Fate w job f _ row refl refl e p))
    | inr (b, busy) ↦ rw (busy, process_job) (waits row e p refl)
  ]

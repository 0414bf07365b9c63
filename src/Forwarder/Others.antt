-- ===== src/Forwarder/Others.antt =====
-- What processJob leaves alone: the jobs that it is not about (internal/forwarder/forwarder.go).
use vahak.Prelude.{
  ◌≡◌, ◌≢◌, refl, sym, ap, subst, ◌∙◌, ◌⊎◌, inl, inr, Bool, false, List, [], ◌∷◌, ◌++◌, arith, any,
  Bool-cases, Option-cases, lookup, nat_eq, ◌==◌, ==_iff, length, ltb,
}
use vahak.Models.{Uuid, Request, DeliveryJob}
use vahak.Circuit.{allow}
use vahak.Store.Storage.{Storage}
use vahak.Forwarder.Deliver.{deliver}
use vahak.Forwarder.Survival.{after_failure-id}
use vahak.Forwarder.{
  ℕ, World, Forwarder, prepare, postponed, after_failure, save, on_delivered, delivered_cap, settle,
  attempt, dispatch, body, process_job,
}

pub alone : (k id : Uuid) → k ≢ id → any (λ i. i == k) (id ∷ []) ≡ false
unfolding any
alone k id ne = ground (arith, ==_iff id k, λ (e : id ≡ k). ne (sym e))

module _ (storage : Storage) where
  open storage use {State, job_at, save-other, mark-other}

  -- In `g`, the row of `k` is the one of `f`, and only the identifier of the job was added to what
  -- the flusher is given.
  pub record IsAside (k : Uuid) (job : DeliveryJob) (f g : Forwarder storage) : Type 0 where
    pub same_row : job_at k g.store ≡ job_at k f.store
    pub same_ch :
        (g.delivered_ch ≡ f.delivered_ch) ⊎ (g.delivered_ch ≡ f.delivered_ch ++ job.id ∷ [])

  pub save-IsAside :
      (w : World) (now : ℕ) (k : Uuid) (job saved : DeliveryJob) (f g : Forwarder storage)
      → k ≢ job.id
      → saved.id ≡ job.id
      → g.store ≡ f.store
      → g.delivered_ch ≡ f.delivered_ch
      → IsAside k job f (save storage w now saved g)
  save-IsAside w now k job saved f g ne e st ch = record {
    same_row =
        save-other w.save_fault now saved g.store k (subst (λ i. k ≢ i) (sym e) ne)
        ∙ ap (job_at k) st;
    same_ch = inl ch;
  }

  pub on_delivered-IsAside :
      (w : World) (k : Uuid) (job : DeliveryJob) (f g : Forwarder storage)
      → k ≢ job.id
      → g.store ≡ f.store
      → g.delivered_ch ≡ f.delivered_ch
      → IsAside k job f (on_delivered storage w job g)
  unfolding on_delivered
  on_delivered-IsAside w k job f g ne st ch = elim (Bool-cases job.persisted) [
    | inr memory ↦
        rw (memory, on_delivered) (record { same_row = ap (job_at k) st; same_ch = inl ch })
    | inl stored ↦ elim (Bool-cases (ltb (length g.delivered_ch) delivered_cap)) [
      | inl room ↦
          rw (stored, on_delivered)
            (rw room (record {
              same_row = ap (job_at k) st;
              same_ch = inr (ap (λ l. l ++ job.id ∷ []) ch);
            }))
      | inr full ↦
          rw (stored, on_delivered)
            (rw full (record {
              same_row =
                  mark-other w.mark_fault w.finished (job.id ∷ []) g.store k (alone k job.id ne)
                  ∙ ap (job_at k) st;
              same_ch = inl ch;
            }))
    ]
  ]

  attempt-IsAside :
      (w : World) (k : Uuid) (job : DeliveryJob) (req : Request) (f g : Forwarder storage)
      → k ≢ job.id
      → g.store ≡ f.store
      → g.delivered_ch ≡ f.delivered_ch
      → IsAside k job f (attempt storage w job req g)
  unfolding attempt settle
  attempt-IsAside w k job req f g ne st ch =
      elim (Bool-cases (deliver w.http w.delivery_id job.target_url req).1) [
        | inl success ↦ rw (success, settle) (on_delivered-IsAside w k job f _ ne st ch)
        | inr failure ↦
            rw (failure, settle)
              (save-IsAside w w.finished k job (after_failure w job) f _ ne (after_failure-id w job)
                st ch)
      ]

  dispatch-IsAside :
      (w : World) (k : Uuid) (job : DeliveryJob) (req : Request) (f g : Forwarder storage)
      → k ≢ job.id
      → g.store ≡ f.store
      → g.delivered_ch ≡ f.delivered_ch
      → IsAside k job f (dispatch storage w job req g)
  unfolding dispatch
  dispatch-IsAside w k job req f g ne st ch =
      elim (Bool-cases (allow g.circuits job.target_url w.now).0) [
        | inl yes_now ↦ rw yes_now (attempt-IsAside w k job req f _ ne st ch)
        | inr not_now ↦ rw not_now (save-IsAside w w.now k job (postponed w job) f _ ne refl st ch)
      ]

  body-IsAside :
      (w : World) (k : Uuid) (job : DeliveryJob) (f g : Forwarder storage)
      → k ≢ job.id
      → g.store ≡ f.store
      → g.delivered_ch ≡ f.delivered_ch
      → IsAside k job f (body storage w job g)
  unfolding body
  body-IsAside w k job f g ne st ch = elim (Option-cases (prepare storage w job g.store)) [
    | inl nothing ↦ rw (nothing, body) (record { same_row = ap (job_at k) st; same_ch = inl ch })
    | inr (req, ready) ↦ rw (ready, body) (dispatch-IsAside w k job req f g ne st ch)
  ]

  release-IsAside :
      (k : Uuid) (job : DeliveryJob) (f g : Forwarder storage) (processing : List (Uuid × Bool))
      → IsAside k job f g
      → IsAside k job f (record g { processing = processing })
  release-IsAside k job f g processing a = record { same_row = a.same_row; same_ch = a.same_ch }

  pub process_job-IsAside :
      (w : World) (k : Uuid) (job : DeliveryJob) (f : Forwarder storage)
      → k ≢ job.id
      → IsAside k job f (process_job storage w job f)
  unfolding process_job
  process_job-IsAside w k job f ne = elim (Option-cases (lookup job.id f.processing)) [
    | inl free ↦
        rw (free, process_job) (release-IsAside k job f _ _ (body-IsAside w k job f _ ne refl refl))
    | inr (b, busy) ↦ rw (busy, process_job) (record { same_row = refl; same_ch = inl refl })
  ]

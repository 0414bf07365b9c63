-- ===== src/Forwarder/Phases/Course.antt =====
-- What one step of processJob may do to a job that waits in the store
-- (internal/forwarder/forwarder.go).
use vahak.Prelude.{
  ◌+◌, ◌≤◌, ◌≡◌, ◌≢◌, refl, ap, ◌∙◌, inl, inr, Bool, true, false, Option, none, some, List, ◌∷◌,
  ◌++◌, Bool-cases, lookup, nat_eq,
}
use vahak.Models.{Uuid, Request, DeliveryJob, pending, failed}
use vahak.Circuit.{allow, record_success, record_failure}
use vahak.Retry.{max_attempts}
use vahak.Store.Db.{JobRow}
use vahak.Store.Storage.{Storage}
use vahak.Forwarder.Deliver.{OutgoingRequest, deliver, deliver-true}
use vahak.Forwarder.Survival.{Fate, failure-Fate, postponed-Fate, after_failure-id}
use vahak.Forwarder.Others.{IsAside, save-IsAside, on_delivered-IsAside}
use vahak.Forwarder.{insert, World, Forwarder, prepare, postponed, after_failure, settle}
use vahak.Forwarder.Phases.{
  Flight, ready, answered, job_of, is_success, prepared, admitted, start_job, permitted, advance,
}

-- The call is over, or its target has not answered with a 2xx.
abbrev pub is_won : Option Flight → Bool
is_won none = false
is_won (some flight) = is_success flight

module _ (storage : Storage) where
  open storage use {job_at}

  -- Of a job that was pending in `f`: it still is, and no 2xx came; or one did; or it is given up.
  pub data Course (job : DeliveryJob) (f g : Forwarder storage) (next : Option Flight)
      : Type 0 where
    goes_on :
        (row : JobRow)
        → job_at job.id g.store ≡ some row
        → row.status ≡ pending
        → g.delivered_ch ≡ f.delivered_ch
        → is_won next ≡ false
        → Course job f g next
    arrives :
        (out : OutgoingRequest)
        → g.sent ≡ (out, true) ∷ f.sent
        → out.url ≡ job.target_url
        → Course job f g next
    fails :
        (row : JobRow)
        → job_at job.id g.store ≡ some row
        → row.status ≡ failed
        → row.attempts ≡ job.attempts + 1
        → max_attempts ≤ job.attempts + 1
        → Course job f g next

  -- A call that ends.
  Fate-Course :
      (job : DeliveryJob) (f g : Forwarder storage) (processing : List (Uuid × Bool))
      → Fate storage job f g
      → Course job f (record g { processing = processing }) none
  Fate-Course job f g processing (Fate.waits row e p ch) = goes_on row e p ch refl
  Fate-Course job f g processing (Fate.arrived out e u) = arrives out e u
  Fate-Course job f g processing (Fate.exhausted row e s a m) = fails row e s a m

  permitted-Course :
      (answer : Bool) (w : World) (job : DeliveryJob) (req : Request) (f g : Forwarder storage)
      (row : JobRow)
      → g.sent ≡ f.sent
      → g.delivered_ch ≡ f.delivered_ch
      → job_at job.id g.store ≡ some row
      → row.status ≡ pending
      → let r = permitted storage answer w job req g in Course job f r.0 r.1
  unfolding permitted
  permitted-Course false w job req f g row same ch e p =
      Fate-Course job f _ _ (postponed-Fate storage w job f g row ch e p)
  permitted-Course true w job req f g row same ch e p =
      elim (Bool-cases (deliver w.http w.delivery_id job.target_url req).1) [
        | inl success ↦
            let (out, logged, url) = deliver-true w.http w.delivery_id job.target_url req success in
            arrives out
              (ap (λ l. l ++ g.sent) logged
                ∙ ap (λ (l : List (OutgoingRequest × Bool)). (out, true) ∷ l) same)
              url
        | inr failure ↦ goes_on row e p ch failure
      ]

  -- One step of a call for a job that is pending in the store, unless the call has its 2xx already.
  pub advance-Course :
      (flight : Flight) (f : Forwarder storage) (row : JobRow)
      → is_success flight ≡ false
      → job_at (job_of flight).id f.store ≡ some row
      → row.status ≡ pending
      → let r = advance storage flight f in Course (job_of flight) f r.0 r.1
  unfolding advance settle
  advance-Course (ready w job req) f row h e p =
      let (answer, circuits) = allow f.circuits job.target_url w.now in
      permitted-Course answer w job req f (record f { circuits = circuits }) row refl refl e p
  advance-Course (answered w job true) f row h e p = absurd (cc h)
  advance-Course (answered w job false) f row h e p = Fate-Course job f _ _ (
      failure-Fate storage w job f
        (record f { circuits = record_failure f.circuits job.target_url w.finished }) row refl e p)

  permitted-IsAside :
      (answer : Bool) (w : World) (k : Uuid) (job : DeliveryJob) (req : Request)
      (f g : Forwarder storage)
      → k ≢ job.id
      → g.store ≡ f.store
      → g.delivered_ch ≡ f.delivered_ch
      → IsAside storage k job f (permitted storage answer w job req g).0
  unfolding permitted
  permitted-IsAside true w k job req f g ne st ch = record {
    same_row = ap (job_at k) st;
    same_ch = inl ch;
  }
  permitted-IsAside false w k job req f g ne st ch =
      let a = save-IsAside storage w w.now k job (postponed w job) f g ne refl st ch in
      record { same_row = a.same_row; same_ch = a.same_ch }

  -- A step of a call for another job.
  pub advance-IsAside :
      (flight : Flight) (k : Uuid) (f : Forwarder storage)
      → k ≢ (job_of flight).id
      → IsAside storage k (job_of flight) f (advance storage flight f).0
  unfolding advance settle
  advance-IsAside (ready w job req) k f ne =
      let (answer, circuits) = allow f.circuits job.target_url w.now in
      permitted-IsAside answer w k job req f (record f { circuits = circuits }) ne refl refl
  advance-IsAside (answered w job true) k f ne =
      let a =
        on_delivered-IsAside storage w k job f
          (record f { circuits = record_success f.circuits job.target_url }) ne refl refl in
      record { same_row = a.same_row; same_ch = a.same_ch }
  advance-IsAside (answered w job false) k f ne =
      let a =
        save-IsAside storage w w.finished k job (after_failure w job) f
          (record f { circuits = record_failure f.circuits job.target_url w.finished }) ne
          (after_failure-id w job) refl refl in
      record { same_row = a.same_row; same_ch = a.same_ch }

  prepared-keeps :
      (w : World) (job : DeliveryJob) (answer : Option Request) (f : Forwarder storage)
      → let r = prepared storage w job answer f in
        (r.0.store ≡ f.store) × (r.0.delivered_ch ≡ f.delivered_ch) × (is_won r.1 ≡ false)
  unfolding prepared
  prepared-keeps w job none f = (refl, refl, refl)
  prepared-keeps w job (some req) f = (refl, refl, refl)

  admitted-keeps :
      (found : Option Bool) (w : World) (job : DeliveryJob) (f : Forwarder storage)
      → let r = admitted storage found w job f in
        (r.0.store ≡ f.store) × (r.0.delivered_ch ≡ f.delivered_ch) × (is_won r.1 ≡ false)
  unfolding admitted
  admitted-keeps (some b) w job f = (refl, refl, refl)
  admitted-keeps none w job f =
      prepared-keeps w job (prepare storage w job f.store)
        (record f { processing = insert job.id true f.processing })

  -- The start of a call writes nothing to the store.
  pub start_job-keeps :
      (w : World) (job : DeliveryJob) (f : Forwarder storage)
      → let r = start_job storage w job f in
        (r.0.store ≡ f.store) × (r.0.delivered_ch ≡ f.delivered_ch) × (is_won r.1 ≡ false)
  unfolding start_job
  start_job-keeps w job f = admitted-keeps (lookup job.id f.processing) w job f

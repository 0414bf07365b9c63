-- ===== src/Forwarder/Sweep/Conserves.antt =====
-- The sweep hands every claimed job over once (internal/forwarder/forwarder.go: processPendingJobs).
use vahak.Prelude.{
  All, none, ◌≡◌, refl, sym, ap, ◌∙◌, ◌⊎◌, inl, inr, false, Bool-cases, List, [], ◌∷◌, ◌++◌, map,
  length, ltb, ◌*◌,
}
use mathlib.Core.List.{append_assoc, append-nil}
use vahak.Models.{DeliveryJob, second}
use vahak.Queue.{JobQueue, push}
use vahak.Store.Error.{Error, Result, ok, err}
use vahak.Store.Storage.{Storage}
use vahak.Forwarder.Sweep.{
  persist, hand_over, Round, batch_limit, Sweep, take_jobs, finish_round, sweep_round,
  process_pending_jobs,
}

hand_over-full :
    (jobs : List DeliveryJob) (q : JobQueue)
    → ltb (length q.jobs) q.size ≡ false
    → hand_over jobs q ≡ (q, map persist jobs)
unfolding hand_over
hand_over-full [] q full = refl
hand_over-full (job ∷ jobs) q full =
    rw full (ap (λ r. (r.0, persist job ∷ r.1)) (hand_over-full jobs q full))

-- No job is lost or held twice: the queue and the goroutines behind it list the old queue and the
-- claimed jobs, marked as persisted, in order.
hand_over-keeps :
    (jobs : List DeliveryJob) (q : JobQueue)
    → let r = hand_over jobs q in r.0.jobs ++ r.1 ≡ q.jobs ++ map persist jobs
unfolding hand_over push
hand_over-keeps [] q = refl
hand_over-keeps (job ∷ jobs) q = elim (Bool-cases (ltb (length q.jobs) q.size)) [
  | inl room ↦ rw room (
      hand_over-keeps jobs (record q { jobs = q.jobs ++ persist job ∷ [] })
      ∙ append_assoc q.jobs (persist job ∷ []) (map persist jobs))
  | inr full ↦ rw full (
      ap (λ (r : JobQueue × List DeliveryJob). r.0.jobs ++ persist job ∷ r.1)
        (hand_over-full jobs q full))
]

IsFull : JobQueue → Type 0
IsFull q = ltb (length q.jobs) q.size ≡ false

-- A goroutine is started only when the queue is full, and a full queue stays full.
hand_over-IsFull :
    (jobs : List DeliveryJob) (q : JobQueue)
    → ((hand_over jobs q).1 ≡ []) ⊎ IsFull (hand_over jobs q).0
unfolding hand_over push IsFull
hand_over-IsFull [] q = inl refl
hand_over-IsFull (job ∷ jobs) q = elim (Bool-cases (ltb (length q.jobs) q.size)) [
  | inl room ↦ rw room (hand_over-IsFull jobs (record q { jobs = q.jobs ++ persist job ∷ [] }))
  | inr full ↦
      inr (rw full (ap (λ r. ltb (length r.0.jobs) r.0.size) (hand_over-full jobs q full) ∙ full))
]

map-append-persist :
    (xs ys : List DeliveryJob) → map persist (xs ++ ys) ≡ map persist xs ++ map persist ys
map-append-persist [] ys = refl
map-append-persist (x ∷ xs) ys = ap (λ l. persist x ∷ l) (map-append-persist xs ys)

module _ (storage : Storage) where
  -- From a sweep that began with `start` in the queue.
  record IsConserved (start : List DeliveryJob) (s : Sweep storage) : Type 0 where
    pub conserved : s.queue.jobs ++ s.spawned ≡ start ++ map persist s.claimed
    pub overflow : (s.spawned ≡ []) ⊎ IsFull s.queue

  take_jobs-empty :
      (start jobs : List DeliveryJob) (s : Sweep storage)
      → IsConserved start s
      → s.spawned ≡ []
      → IsConserved start (take_jobs storage jobs (record s { claimed = s.claimed ++ jobs }))
  unfolding take_jobs
  take_jobs-empty start jobs s c none_yet =
      let r = hand_over jobs s.queue in
      record {
        conserved =
            ap (λ l. r.0.jobs ++ (l ++ r.1)) none_yet
            ∙ hand_over-keeps jobs s.queue
            ∙ ap (λ l. l ++ map persist jobs)
                (sym (append-nil s.queue.jobs)
                  ∙ ap (λ l. s.queue.jobs ++ l) (sym none_yet)
                  ∙ c.conserved)
            ∙ append_assoc start (map persist s.claimed) (map persist jobs)
            ∙ ap (λ l. start ++ l) (sym (map-append-persist s.claimed jobs));
        overflow = elim (hand_over-IsFull jobs s.queue) [
          | inl fits ↦ inl (ap (λ l. l ++ r.1) none_yet ∙ fits)
          | inr full ↦ inr full
        ];
      }

  take_jobs-full :
      (start jobs : List DeliveryJob) (s : Sweep storage)
      → IsConserved start s
      → IsFull s.queue
      → IsConserved start (take_jobs storage jobs (record s { claimed = s.claimed ++ jobs }))
  unfolding take_jobs IsFull
  take_jobs-full start jobs s c full =
      let same = hand_over-full jobs s.queue full in
      record {
        conserved =
            ap (λ (r : JobQueue × List DeliveryJob). r.0.jobs ++ (s.spawned ++ r.1)) same
            ∙ sym (append_assoc s.queue.jobs s.spawned (map persist jobs))
            ∙ ap (λ l. l ++ map persist jobs) c.conserved
            ∙ append_assoc start (map persist s.claimed) (map persist jobs)
            ∙ ap (λ l. start ++ l) (sym (map-append-persist s.claimed jobs));
        overflow =
            inr (
              ap (λ (r : JobQueue × List DeliveryJob). ltb (length r.0.jobs) r.0.size) same ∙ full);
      }

  take_jobs-IsConserved :
      (start jobs : List DeliveryJob) (s : Sweep storage)
      → IsConserved start s
      → IsConserved start (take_jobs storage jobs (record s { claimed = s.claimed ++ jobs }))
  take_jobs-IsConserved start jobs s c = elim c.overflow [
    | inl none_yet ↦ take_jobs-empty start jobs s c none_yet
    | inr full ↦ take_jobs-full start jobs s c full
  ]

  -- A round whose context is not done while it hands over.
  finish_round-IsConserved :
      (start : List DeliveryJob) (r : Round)
      (answer : storage.State × Result Error (List DeliveryJob)) (s : Sweep storage)
      → r.cut ≡ none
      → IsConserved start s
      → IsConserved start (finish_round storage r answer s).0
  unfolding finish_round
  finish_round-IsConserved start r (st, err e) s uncut c = record {
    conserved = c.conserved;
    overflow = c.overflow;
  }
  finish_round-IsConserved start r (st, ok []) s uncut c = record {
    conserved = c.conserved;
    overflow = c.overflow;
  }
  finish_round-IsConserved start r (st, ok (job ∷ jobs)) s uncut c =
      let done =
        take_jobs-IsConserved start (job ∷ jobs) (record s { store = st })
          (record { conserved = c.conserved; overflow = c.overflow }) in
      rw uncut (elim (Bool-cases (ltb (length (job ∷ jobs)) batch_limit)) [
        | inl short ↦ rw short done
        | inr more ↦ rw more done
      ])

  sweep_round-IsConserved :
      (start : List DeliveryJob) (r : Round) (s : Sweep storage)
      → r.cut ≡ none
      → IsConserved start s
      → IsConserved start (sweep_round storage r s).0
  unfolding sweep_round
  sweep_round-IsConserved start r s uncut c = elim (Bool-cases r.stopped) [
    | inl stopped ↦ rw (stopped, sweep_round) c
    | inr running ↦
        rw (running, sweep_round)
          (finish_round-IsConserved start (record r { stopped = false })
            (storage.claim_pending_jobs r.claim_fault r.now (15 * second) batch_limit s.store) s
            uncut c)
  ]

  sweep-IsConserved :
      (start : List DeliveryJob) (rounds : List Round) (s : Sweep storage)
      → All (λ r. r.cut ≡ none) rounds
      → IsConserved start s
      → IsConserved start (process_pending_jobs storage rounds s)
  unfolding process_pending_jobs
  sweep-IsConserved start [] s uncut c = c
  sweep-IsConserved start (r ∷ rounds) s uncut c =
      let c' = sweep_round-IsConserved start r s uncut.0 c in
      elim (Bool-cases (sweep_round storage r s).1) [
        | inl more ↦ rw more (sweep-IsConserved start rounds (sweep_round storage r s).0 uncut.1 c')
        | inr over ↦ rw over c'
      ]

  -- However many rounds a sweep makes and whatever the driver refuses in them, if the context is not
  -- done while a round hands over, no job that ClaimPendingJobs returns is lost or handled twice: the
  -- queue, followed by the jobs that got goroutines of their own, lists what was in the queue and
  -- then the jobs claimed, in order and marked as persisted. A goroutine is started only when the
  -- queue is full.
  pub sweep_conserves :
      (rounds : List Round) (st : storage.State) (q : JobQueue)
      → All (λ r. r.cut ≡ none) rounds
      → let s =
          process_pending_jobs storage rounds
            (record { store = st; queue = q; spawned = []; claimed = [] }) in
        (s.queue.jobs ++ s.spawned ≡ q.jobs ++ map persist s.claimed)
        × ((s.spawned ≡ []) ⊎ (ltb (length s.queue.jobs) s.queue.size ≡ false))
  unfolding IsFull
  sweep_conserves rounds st q uncut =
      let c =
        sweep-IsConserved q.jobs rounds
          (record { store = st; queue = q; spawned = []; claimed = [] }) uncut
          (record { conserved = refl; overflow = inl refl }) in
      (c.conserved, c.overflow)

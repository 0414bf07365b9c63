-- ===== src/Forwarder/Sweep.antt =====
-- internal/forwarder/forwarder.go: processPendingJobs, the sweep that brings pending jobs of the
-- store back to the workers.
pub mod Conserves
pub mod Ends
pub mod Backlog
use vahak.Prelude.{
  ℕ, zero, suc, ◌≡◌, refl, sym, ap, ◌∙◌, inl, inr, Bool, true, false, Bool-cases, Option, none,
  some, List, [], ◌∷◌, ◌++◌, map, length, take, length-append, ltb, if◌then◌else◌, ◌*◌, ◌+◌, arith,
  ◌≤◌,
}
use mathlib.Core.List.{append_assoc, append-nil}
use vahak.Models.{Time, DeliveryJob, second}
use vahak.Queue.{JobQueue, push}
use vahak.Store.Error.{Cause, Error, Result, ok, err, Result-cases}
use vahak.Store.Storage.{Storage}

-- `job.Persisted = true`.
abbrev pub persist : DeliveryJob → DeliveryJob
persist job = record job { persisted = true }

-- The claimed jobs go to the queue while it has room; the others are returned, each for a goroutine
-- of its own.
unfoldable pub hand_over : List DeliveryJob → JobQueue → JobQueue × List DeliveryJob
hand_over [] q = (q, [])
hand_over (job ∷ jobs) q =
    let queued = hand_over jobs (push (persist job) q) in
    let (q', spawned) = hand_over jobs q in
    if ltb (length q.jobs) q.size then queued else (q', persist job ∷ spawned)

-- What one round reads of the outside: whether the context is done at its start, the driver, the
-- clock, and after how many jobs the context is found done, if it is.
pub record Round : Type 0 where
  pub stopped : Bool
  pub claim_fault : Option Cause
  pub now : Time
  pub cut : Option ℕ

abbrev pub batch_limit : ℕ
batch_limit = 100

abbrev pub handed : Option ℕ → List DeliveryJob → List DeliveryJob
handed none jobs = jobs
handed (some n) jobs = take n jobs

-- Whether the context ends the round before the last job.
abbrev pub is_cut : Option ℕ → List DeliveryJob → Bool
is_cut none jobs = false
is_cut (some n) jobs = ltb n (length jobs)

module _ (storage : Storage) where
  open storage use {State, claim_pending_jobs}

  -- `claimed` lists what ClaimPendingJobs has returned so far, and `spawned` the goroutines it started.
  pub record Sweep : Type 0 where
    pub store : State
    pub queue : JobQueue
    pub spawned : List DeliveryJob
    pub claimed : List DeliveryJob

  unfoldable pub take_jobs : List DeliveryJob → Sweep → Sweep
  unfolding hand_over
  take_jobs jobs s =
      let (queue, spawned) = hand_over jobs s.queue in
      record s { queue = queue; spawned = s.spawned ++ spawned }

  -- A round after its claim: the sweep so far, and whether it goes on.
  unfoldable pub finish_round :
      Round → State × Result Error (List DeliveryJob) → Sweep → Sweep × Bool
  unfolding take_jobs
  finish_round r (st, err e) s = (record s { store = st }, false)
  finish_round r (st, ok []) s = (record s { store = st }, false)
  finish_round r (st, ok (job ∷ jobs)) s =
      let s' =
        take_jobs (handed r.cut (job ∷ jobs))
          (record s { store = st; claimed = s.claimed ++ job ∷ jobs }) in
      if is_cut r.cut (job ∷ jobs)
      then (s', false)
      else if ltb (length (job ∷ jobs)) batch_limit
      then (s', false)
      else (s', true)

  unfoldable pub sweep_round : Round → Sweep → Sweep × Bool
  unfolding finish_round
  sweep_round r s =
      if r.stopped
      then (s, false)
      else finish_round r (claim_pending_jobs r.claim_fault r.now (15 * second) batch_limit s.store)
          s

  -- The loop, over the readings of its rounds.
  unfoldable pub process_pending_jobs : List Round → Sweep → Sweep
  unfolding sweep_round
  process_pending_jobs [] s = s
  process_pending_jobs (r ∷ rounds) s =
      let after = sweep_round r s in
      let rest = process_pending_jobs rounds after.0 in if after.1 then rest else after.0

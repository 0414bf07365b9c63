-- ===== src/Forwarder/Sweep/Ends.antt =====
-- The sweep over the SQLite engine ends, and leaves nothing due (internal/forwarder/forwarder.go:
-- processPendingJobs).
use vahak.Prelude.{
  ℕ, ◌+◌, ◌*◌, ◌≤◌, ◌<◌, ◌≡◌, refl, sym, ap, ◌∙◌, subst, inl, inr, Bool, true, false, Bool-cases,
  if◌then◌else◌, Option, none, some, List, [], ◌∷◌, ◌++◌, map, arith, length, ltb, All,
}
use vahak.Models.{Time, second, DeliveryJob}
use vahak.Store.Error.{Error, Result, ok, err}
use vahak.Store.Codec.{HeaderCodec}
use vahak.Store.Db.{Db, JobRow}
use vahak.Store.Db.Integrity.{IsConsistent}
use vahak.Store.Claim.{claim_rows}
use vahak.Store.Claim.Lease.{claim_rows-IsConsistent}
use vahak.Store.Claim.Backlog.{backlog, backlog-claim_rows}
use vahak.Store.Sqlite.Jobs.{claim_pending_jobs, scan_job}
use vahak.Store.Sqlite.Implements.{sqlite_storage}
use vahak.Store.Storage.{Storage}
use vahak.Forwarder.Sweep.{
  Cause, Round, is_cut, batch_limit, Sweep, take_jobs, finish_round, sweep_round,
  process_pending_jobs,
}

module _ (storage : Storage) where
  pub finish_round-store :
      (r : Round) (answer : storage.State × Result Error (List DeliveryJob)) (s : Sweep storage)
      → (finish_round storage r answer s).0.store ≡ answer.0
  unfolding finish_round take_jobs
  finish_round-store r (st, err e) s = refl
  finish_round-store r (st, ok []) s = refl
  finish_round-store r (st, ok (job ∷ jobs)) s = elim (Bool-cases (is_cut r.cut (job ∷ jobs))) [
    | inl cut ↦ rw cut refl
    | inr whole ↦ rw whole (elim (Bool-cases (ltb (length (job ∷ jobs)) batch_limit)) [
      | inl short ↦ rw short refl
      | inr more ↦ rw more refl
    ])
  ]

  -- The loop goes on after a full batch only.
  finish_round-more :
      (r : Round) (answer : storage.State × Result Error (List DeliveryJob)) (s : Sweep storage)
      → (finish_round storage r answer s).1 ≡ true
      → (jobs : List DeliveryJob) × (answer.1 ≡ ok jobs) × (batch_limit ≤ length jobs)
  unfolding finish_round
  finish_round-more r (st, err e) s h = absurd (cc h)
  finish_round-more r (st, ok []) s h = absurd (cc h)
  finish_round-more r (st, ok (job ∷ jobs)) s h = (job ∷ jobs, refl, ground arith)

  -- And it ends after a short one, if nothing interrupts it.
  pub finish_round-over :
      (r : Round) (st : storage.State) (jobs : List DeliveryJob) (s : Sweep storage)
      → r.cut ≡ none
      → (finish_round storage r (st, ok jobs) s).1 ≡ false
      → length jobs < batch_limit
  unfolding finish_round
  finish_round-over r st [] s quiet h = omega arith
  finish_round-over r st (job ∷ jobs) s quiet h =
      let whole : is_cut r.cut (job ∷ jobs) ≡ false = rw quiet refl in ground arith

pub length-scan : (rows : List JobRow) → length (map scan_job rows) ≡ length rows
length-scan [] = refl
length-scan (row ∷ rows) = omega (arith, length-scan rows)

-- The readings of the clock fall within one lease.
abbrev pub IsWithin : Time → Round → Type 0
IsWithin t r = (t ≤ r.now) × (r.now < t + 15 * second)

claim-IsConsistent :
    (fault : Option Cause) (now lease limit : ℕ) (db : Db)
    → IsConsistent db
    → IsConsistent (claim_pending_jobs fault now lease limit db).0
unfolding claim_pending_jobs
claim-IsConsistent none now lease limit db c = claim_rows-IsConsistent now _ _ db c
claim-IsConsistent (some x) now lease limit db c = c

claim_shrinks :
    (fault : Option Cause) (now t : Time) (db : Db) (jobs : List DeliveryJob)
    → t ≤ now
    → now < t + 15 * second
    → IsConsistent db
    → (claim_pending_jobs fault now (15 * second) batch_limit db).1 ≡ ok jobs
    → backlog (t + 15 * second) (claim_pending_jobs fault now (15 * second) batch_limit db).0
        + length jobs
      ≡ backlog (t + 15 * second) db
unfolding claim_pending_jobs
claim_shrinks (some x) now t db jobs after before c h = absurd (cc h)
claim_shrinks none now t db jobs after before c h =
    let rows = (claim_rows now (now + 15 * second) batch_limit db).1 in
    let listed : map scan_job rows ≡ jobs = cc h in
    let counted : length jobs ≡ length rows = ap length (sym listed) ∙ length-scan rows in
    ap (λ n. backlog (t + 15 * second) (claim_rows now (now + 15 * second) batch_limit db).0 + n)
      counted
    ∙ backlog-claim_rows now (now + 15 * second) (t + 15 * second) batch_limit db c before
        (omega arith)

module _ (json : HeaderCodec) where
  shrinks_unless :
      (stopped : Bool) (t : Time) (r : Round) (s : Sweep (sqlite_storage json))
      → IsWithin t r
      → IsConsistent s.store
      → (let answer = claim_pending_jobs r.claim_fault r.now (15 * second) batch_limit s.store in
          let next =
            if stopped then (s, false) else finish_round (sqlite_storage json) r answer s in
          next.1 ≡ true
          → backlog (t + 15 * second) next.0.store + batch_limit
            ≤ backlog (t + 15 * second) s.store)
  shrinks_unless true t r s w c h = absurd (cc h)
  shrinks_unless false t r s w c h =
      let answer = claim_pending_jobs r.claim_fault r.now (15 * second) batch_limit s.store in
      let (jobs, got, full) = finish_round-more (sqlite_storage json) r answer s h in
      let left = claim_shrinks r.claim_fault r.now t s.store jobs w.0 w.1 c got in
      let same =
        ap (backlog (t + 15 * second)) (finish_round-store (sqlite_storage json) r answer s) in
      omega (arith, left, same)

  pub round_shrinks :
      (t : Time) (r : Round) (s : Sweep (sqlite_storage json))
      → IsWithin t r
      → IsConsistent s.store
      → (sweep_round (sqlite_storage json) r s).1 ≡ true
      → backlog (t + 15 * second) (sweep_round (sqlite_storage json) r s).0.store + batch_limit
        ≤ backlog (t + 15 * second) s.store
  unfolding sweep_round
  round_shrinks t r s w c h = shrinks_unless r.stopped t r s w c h

  pub round-IsConsistent :
      (r : Round) (s : Sweep (sqlite_storage json))
      → IsConsistent s.store
      → IsConsistent (sweep_round (sqlite_storage json) r s).0.store
  unfolding sweep_round
  round-IsConsistent r s c = elim (Bool-cases r.stopped) [
    | inl stopped ↦ rw stopped c
    | inr running ↦
        let answer = claim_pending_jobs r.claim_fault r.now (15 * second) batch_limit s.store in
        rw running (
          subst IsConsistent (sym (finish_round-store (sqlite_storage json) r answer s))
            (claim-IsConsistent r.claim_fault r.now (15 * second) batch_limit s.store c))
  ]

  -- The sweep ends: if the clock of its rounds stays within fifteen seconds, a lease, of a time `t`,
  -- and there are more than a hundredth as many rounds as pending jobs due before the end of that
  -- lease, the sweep makes no use of any further rounds, whatever the driver refuses and whenever
  -- the context ends.
  pub sweep_ends :
      (t : Time) (rounds more : List Round) (s : Sweep (sqlite_storage json))
      → IsConsistent s.store
      → All (IsWithin t) rounds
      → backlog (t + 15 * second) s.store < batch_limit * length rounds
      → process_pending_jobs (sqlite_storage json) (rounds ++ more) s
        ≡ process_pending_jobs (sqlite_storage json) rounds s
  unfolding process_pending_jobs
  sweep_ends t [] more s c within enough = absurd (omega arith)
  sweep_ends t (r ∷ rounds) more s c (w, within) enough =
      elim (Bool-cases (sweep_round (sqlite_storage json) r s).1) [
        | inr over ↦ rw over refl
        | inl goes ↦
            let s' = (sweep_round (sqlite_storage json) r s).0 in
            rw goes (
              sweep_ends t rounds more s' (round-IsConsistent r s c) within
                (omega (arith, round_shrinks t r s w c goes)))
      ]

-- ===== src/Forwarder/Sweep/Backlog.antt =====
-- A sweep over the SQLite engine that nothing stops leaves nothing due
-- (internal/forwarder/forwarder.go: processPendingJobs).
use vahak.Prelude.{
  All-map, ◌+◌, ◌*◌, ◌≤◌, ◌<◌, ◌≡◌, refl, sym, subst, inl, inr, Bool, true, false, Bool-cases,
  if◌then◌else◌, Option, none, some, List, [], ◌∷◌, map, arith, length, All,
}
use vahak.Models.{Time, second, DeliveryJob}
use vahak.Store.Error.{ok}
use vahak.Store.Codec.{HeaderCodec}
use vahak.Store.Db.{Db}
use vahak.Store.Db.Integrity.{IsConsistent}
use vahak.Store.Claim.{is_due, claim_rows}
use vahak.Store.Claim.Drain.{claim_drains}
use vahak.Store.Claim.Backlog.{backlog}
use vahak.Store.Sqlite.Jobs.{claim_pending_jobs, scan_job}
use vahak.Store.Sqlite.Implements.{sqlite_storage}
use vahak.Forwarder.Sweep.Ends.{
  IsWithin, length-scan, finish_round-store, finish_round-over, round-IsConsistent, round_shrinks,
}
use vahak.Forwarder.Sweep.{
  Cause, Round, batch_limit, Sweep, finish_round, sweep_round, process_pending_jobs,
}

-- Nothing stops the round.
pub record IsQuiet (r : Round) : Type 0 where
  pub runs : r.stopped ≡ false
  pub accepted : r.claim_fault ≡ none
  pub uncut : r.cut ≡ none

claim_short :
    (now t : Time) (db : Db)
    → t ≤ now
    → IsConsistent db
    → (jobs : List DeliveryJob) × ((claim_pending_jobs none now (15 * second) batch_limit db).1
        ≡ ok jobs)
      × (length jobs < batch_limit
          → All
              (λ j. is_due t j ≡ false)
              (claim_pending_jobs none now (15 * second) batch_limit db).0.jobs)
unfolding claim_pending_jobs
claim_short now t db after c =
    let rows = (claim_rows now (now + 15 * second) batch_limit db).1 in
    (
      map scan_job rows,
      refl,
      λ short.
          All-map _ _ _ (λ j idle. ground arith)
            ((claim_drains now (now + 15 * second) batch_limit db c (omega arith)).1
              (omega (arith, length-scan rows))),
    )

module _ (json : HeaderCodec) where
  drained_unless :
      (stopped : Bool) (fault : Option Cause) (t : Time) (r : Round)
      (s : Sweep (sqlite_storage json))
      → stopped ≡ false
      → fault ≡ none
      → r.cut ≡ none
      → t ≤ r.now
      → IsConsistent s.store
      → (let answer = claim_pending_jobs fault r.now (15 * second) batch_limit s.store in
          let next =
            if stopped then (s, false) else finish_round (sqlite_storage json) r answer s in
          next.1 ≡ false → All (λ j. is_due t j ≡ false) next.0.store.jobs)
  drained_unless true fault t r s runs accepted uncut after c h = absurd (cc runs)
  drained_unless false (some x) t r s runs accepted uncut after c h = absurd (cc accepted)
  drained_unless false none t r s runs accepted uncut after c h =
      let answer = claim_pending_jobs none r.now (15 * second) batch_limit s.store in
      let (jobs, got, idle) = claim_short r.now t s.store after c in
      let short =
        finish_round-over (sqlite_storage json) r answer.0 jobs s uncut
          (subst (λ x. (finish_round (sqlite_storage json) r (answer.0, x) s).1 ≡ false) got h) in
      subst (λ (db : Db). All (λ j. is_due t j ≡ false) db.jobs)
        (sym (finish_round-store (sqlite_storage json) r answer s)) (idle short)

  round_drained :
      (t : Time) (r : Round) (s : Sweep (sqlite_storage json))
      → t ≤ r.now
      → IsQuiet r
      → IsConsistent s.store
      → (sweep_round (sqlite_storage json) r s).1 ≡ false
      → All (λ j. is_due t j ≡ false) (sweep_round (sqlite_storage json) r s).0.store.jobs
  unfolding sweep_round
  round_drained t r s after quiet c h =
      drained_unless r.stopped r.claim_fault t r s quiet.runs quiet.accepted quiet.uncut after c h

  -- The sweep gets through its backlog: if nothing stops its rounds, the driver refuses nothing,
  -- the clock stays within fifteen seconds, a lease, of a time `t`, and there are more than a
  -- hundredth as many rounds as pending jobs due before the end of that lease, no pending job that
  -- is due at `t` is left in the tables.
  pub sweep_drains :
      (t : Time) (rounds : List Round) (s : Sweep (sqlite_storage json))
      → IsConsistent s.store
      → All (IsWithin t) rounds
      → All IsQuiet rounds
      → backlog (t + 15 * second) s.store < batch_limit * length rounds
      → All
          (λ j. is_due t j ≡ false)
          (process_pending_jobs (sqlite_storage json) rounds s).store.jobs
  unfolding process_pending_jobs
  sweep_drains t [] s c within quiet enough = absurd (omega arith)
  sweep_drains t (r ∷ rounds) s c (w, within) (q, quiet) enough =
      elim (Bool-cases (sweep_round (sqlite_storage json) r s).1) [
        | inr over ↦ rw over (round_drained t r s w.0 q c over)
        | inl goes ↦
            let s' = (sweep_round (sqlite_storage json) r s).0 in
            rw goes (
              sweep_drains t rounds s' (round-IsConsistent json r s c) within quiet
                (omega (arith, round_shrinks json t r s w c goes)))
      ]

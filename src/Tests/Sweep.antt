-- ===== src/Tests/Sweep.antt =====
-- The sweep at concrete inputs, over the SQLite engine.
use vahak.Prelude.{ℕ, ◌≡◌, refl, List, [], ◌∷◌, ◌++◌, false, none, arith, All}
use vahak.Store.Claim.{is_due}
use vahak.Store.Sqlite.Implements.{sqlite_storage}
use vahak.Forwarder.Sweep.{Round, Sweep, process_pending_jobs}
use vahak.Forwarder.Sweep.Ends.{sweep_ends}
use vahak.Forwarder.Sweep.Backlog.{sweep_drains}
use vahak.Queue.{new_job_queue}
use vahak.Tests.Fixtures.{empty_json, sample_db}
use vahak.Tests.Store.{sample_db-IsConsistent}

abbrev round : Round
round = record { stopped = false; claim_fault = none; now = 50; cut = none }

abbrev sweep : Sweep (sqlite_storage empty_json)
sweep = record { store = sample_db; queue = new_job_queue 4; spawned = []; claimed = [] }

sweep_ends_example :
    process_pending_jobs (sqlite_storage empty_json) (round ∷ round ∷ []) sweep
    ≡ process_pending_jobs (sqlite_storage empty_json) (round ∷ []) sweep
unfolding vahak.Prelude.select
sweep_ends_example =
    sweep_ends empty_json 50 (round ∷ []) (round ∷ []) sweep sample_db-IsConsistent
      ((omega arith, omega arith), tt) (omega arith)

sweep_drains_example :
    All
      (λ j. is_due 50 j ≡ false)
      (process_pending_jobs (sqlite_storage empty_json) (round ∷ []) sweep).store.jobs
unfolding vahak.Prelude.select
sweep_drains_example =
    sweep_drains empty_json 50 (round ∷ []) sweep sample_db-IsConsistent
      ((omega arith, omega arith), tt) (record { runs = refl; accepted = refl; uncut = refl }, tt)
      (omega arith)

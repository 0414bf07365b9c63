-- ===== src/Tests/Recovery.antt =====
-- A restart, after which the PostgreSQL engine has a job that is due.
use vahak.Prelude.{arith, ◌≡◌, refl, sym, subst, true, none, some, List, [], ◌∷◌, Memᴰ}
use vahak.Models.{DeliveryJob, Request, delivered}
use vahak.Store.Db.{JobRow}
use vahak.Store.Sqlite.Jobs.{scan_job}
use vahak.Store.Postgres.Engine.{postgres_engine}
use vahak.Forwarder.{prepare}
use vahak.Forwarder.Deliver.{OutgoingRequest, deliver}
use vahak.Forwarder.Sweep.{persist}
use vahak.System.{run, store_of}
use vahak.System.Recovery.{recovery, recovers}
use vahak.Tests.Fixtures.{empty_json, early_job, captured, world_with, sample_db}
use vahak.Tests.System.{server}
use vahak.Tests.Store.{sample_db-IsConsistent}

abbrev swept_job : DeliveryJob
swept_job = scan_job (record early_job { next_attempt = 15000000100 })

abbrev loaded : Request
loaded = record captured { id = 10; source_ip = "10.0.0.1"; received_at = 6 }

abbrev Serves : DeliveryJob → Type 0
Serves job =
    (req : Request) × (prepare (postgres_engine empty_json).storage (world_with (some 200))
        (persist job)
        ((postgres_engine empty_json).storage.claim_pending_jobs none 100 15 100 sample_db).0
      ≡ some req)
    × ((deliver (world_with (some 200)).http (world_with (some 200)).delivery_id job.target_url
          req).1
        ≡ true)

swept_job-Serves : Serves swept_job
unfolding vahak.Forwarder.prepare vahak.Store.Postgres.Records.get_request vahak.Prelude.select
    vahak.Store.Postgres.claim_pending_jobs vahak.Store.Db.update_jobs
    vahak.Store.Postgres.Records.get_endpoint vahak.Forwarder.Deliver.deliver
swept_job-Serves = (loaded, refl, refl)

all-Serves : (job : DeliveryJob) → Memᴰ job (swept_job ∷ []) → job.id ≡ 20 → Serves job
all-Serves job (Memᴰ.head e) h = subst Serves (sym e) swept_job-Serves
all-Serves job (Memᴰ.tail m) h = elim m [ ]

recovers_example :
    (job : DeliveryJob) × Memᴰ job (swept_job ∷ [])
    × (job.id ≡ 20)
    × (let t =
          run
            (postgres_engine empty_json)
            (recovery
              (postgres_engine empty_json)
              100
              15
              100
              (world_with (some 200))
              (persist job)
              120)
            server in
        ((out : OutgoingRequest) × (t.forwarder.sent ≡ (out, true) ∷ [])
          × (out.url ≡ "http://shop"))
        × (t.flights ≡ [])
        × (t.forwarder.processing ≡ [])
        × ((row : JobRow)
            → (postgres_engine empty_json).storage.job_at 20
                (store_of (postgres_engine empty_json) t)
              ≡ some row
            → row.status ≡ delivered))
unfolding vahak.Prelude.select vahak.Store.Postgres.claim_pending_jobs vahak.Store.Db.update_jobs
    vahak.Prelude.find vahak.Prelude.update_where vahak.Prelude.any vahak.Store.Claim.due_jobs
    vahak.Prelude.Sort.sort_by vahak.Prelude.Sort.insert_by
recovers_example =
    recovers (postgres_engine empty_json) 100 15 100 (world_with (some 200)) 20 early_job
      (swept_job ∷ []) 120 server sample_db-IsConsistent refl refl (ground arith) refl
      (ground arith) all-Serves

-- ===== src/Tests/GivesUp.antt =====
-- A job that fails four times more, over the SQLite engine.
use vahak.Prelude.{◌≡◌, refl, some, [], ◌∷◌, arith}
use vahak.Models.{Request, failed}
use vahak.Retry.{max_attempts}
use vahak.Store.Db.{JobRow}
use vahak.Store.Sqlite.Reads.{job_at}
use vahak.Forwarder.{World}
use vahak.Forwarder.GivesUp.{retry_all, gives_up}
use vahak.Tests.Fixtures.{empty_json, early_job, captured, world_with, idle_forwarder}

abbrev refusing : World
refusing = world_with (some 503)

-- What the store has for the request of `early_job`.
abbrev loaded : Request
loaded = record captured { id = 10; source_ip = "10.0.0.1"; received_at = 6 }

gives_up_example :
    (last : JobRow) × (job_at 20
        (retry_all empty_json 20
          (refusing ∷ refusing ∷ refusing ∷ refusing ∷ [])
          idle_forwarder).store
      ≡ some last)
    × (last.status ≡ failed)
    × (last.attempts ≡ max_attempts)
unfolding vahak.Prelude.find vahak.Prelude.lookup vahak.Forwarder.prepare
    vahak.Store.Sqlite.get_request vahak.Prelude.select vahak.Store.Sqlite.get_endpoint
    vahak.Circuit.allow vahak.Circuit.breaker_allow vahak.Circuit.get
    vahak.Forwarder.Deliver.deliver vahak.Store.Sqlite.Jobs.save_delivery_job
    vahak.Store.Sqlite.Jobs.upsert_job vahak.Prelude.any vahak.Forwarder.after_failure
    vahak.Forwarder.GivesUp.retry vahak.Forwarder.process_job vahak.Store.Db.update_jobs
    vahak.Circuit.breaker_failure vahak.Circuit.record_failure vahak.Prelude.erase
    vahak.Prelude.insert vahak.Prelude.update_where vahak.Retry.calculate_next_attempt
gives_up_example =
    gives_up empty_json 20 refusing (refusing ∷ refusing ∷ refusing ∷ []) idle_forwarder early_job
      refl refl
      (
        record {
          idle = refl;
          request = loaded;
          prepared = refl;
          permitted = refl;
          refused = refl;
          written = refl;
          small_jitter = λ base. omega arith;
        },
        (
          record {
            idle = refl;
            request = loaded;
            prepared = refl;
            permitted = refl;
            refused = refl;
            written = refl;
            small_jitter = λ base. omega arith;
          },
          (
            record {
              idle = refl;
              request = loaded;
              prepared = refl;
              permitted = refl;
              refused = refl;
              written = refl;
              small_jitter = λ base. omega arith;
            },
            (
              record {
                idle = refl;
                request = loaded;
                prepared = refl;
                permitted = refl;
                refused = refl;
                written = refl;
                small_jitter = λ base. omega arith;
              },
              tt,
            ),
          ),
        ),
      )

-- ===== src/Tests/System.antt =====
-- The whole server at concrete inputs.
use vahak.Prelude.{
  Option, ℕ, find, ◌≡◌, ◌⊎◌, refl, true, false, none, some, Memᴰ, List, [], ◌∷◌, ◌++◌, any,
}
use vahak.Circuit.{new_circuit_manager}
use vahak.Store.Engine.{Engine, Pending}
use vahak.Store.Sqlite.Engine.{sqlite_engine}
use vahak.Store.Sqlite.Flush.{IngestItem, flush_batch}
use vahak.Store.Sqlite.Bulk.{no_faults}
use vahak.Store.Sqlite.Jobs.{scan_job}
use vahak.Store.Postgres.Engine.{postgres_engine}
use vahak.System.{System, Step, run, store_of}
use vahak.System.Landing.{Pends}
use vahak.System.Delivery.{Settled, at_least_once}
use vahak.System.Acknowledged.{acknowledged_is_not_lost}
use vahak.Api.Capture.{capture_webhook, captured_request, captured_job}
use vahak.Tests.Fixtures.{
  empty_json, sample_db, early_job, late_job, endpoint, idle_forwarder, world_with,
}
use vahak.Tests.Api.{handler, webhook, ingress}
use vahak.Tests.Store.{sample_db-IsConsistent}

-- Two calls, for two jobs, that overlap; the first one meets a 503.
abbrev busy_hour : (engine : Engine) → List (Step engine)
busy_hour engine =
    Step.sweeps none 100 15 100
    ∷ Step.starts (world_with (some 503)) (scan_job early_job)
    ∷ Step.starts (world_with (some 200)) (scan_job late_job)
    ∷ Step.goes_on 1
    ∷ Step.goes_on 0
    ∷ Step.goes_on 0
    ∷ Step.collects
    ∷ Step.goes_on 0
    ∷ Step.marks none 120
    ∷ Step.restarts
    ∷ Step.prunes none none 1000 7
    ∷ Step.deletes_endpoint none 5
    ∷ []

abbrev pub server : System (postgres_engine empty_json)
server = record {
  forwarder = record {
    store = sample_db;
    circuits = new_circuit_manager;
    processing = [];
    delivered_ch = [];
    sent = [];
  };
  flights = [];
  ids = [];
}

server-Pends : Pends (postgres_engine empty_json) 20 server
unfolding any find
server-Pends = record {
  waits_still = (early_job, refl, refl);
  unmarked_ch = refl;
  unmarked_ids = refl;
  unwon = refl;
}

at_least_once_example :
    Pends
      (postgres_engine empty_json)
      20
      (run (postgres_engine empty_json) (busy_hour (postgres_engine empty_json)) server)
    ⊎ Settled (postgres_engine empty_json) 20 (busy_hour (postgres_engine empty_json)) server
at_least_once_example =
    at_least_once (postgres_engine empty_json) 20 (busy_hour (postgres_engine empty_json)) server
      server-Pends

abbrev sent_item : IngestItem
sent_item =
    let req = captured_request ingress webhook 1 "hello" in
    record { request = req; job = some (captured_job ingress endpoint req); result = some 4 }

told : (flush_batch empty_json no_faults (sent_item ∷ []) sample_db).1 ≡ (4, none) ∷ []
unfolding flush_batch vahak.Store.Sqlite.Flush.chunks vahak.Store.Db.insert_all
    vahak.Store.Db.insert_request any vahak.Store.Sqlite.Flush.valid_jobs vahak.Store.Db.insert_job
    vahak.Store.Sqlite.Flush.notify
told = refl

reported :
    (ch : ℕ)
    → ◌≡◌ {A = Option ℕ} (some 4) (some ch)
    → Memᴰ (ch, none) (flush_batch empty_json no_faults (sent_item ∷ []) sample_db).1
reported ch e = rw told (Memᴰ.head (cc e))

abbrev after_batch : System (sqlite_engine empty_json)
after_batch = record {
  forwarder = record idle_forwarder {
    store = (flush_batch empty_json no_faults (sent_item ∷ []) sample_db).0;
  };
  flights = [];
  ids = [];
}

acknowledged_is_not_lost_example :
    Pending (sqlite_engine empty_json).storage 31 (
      store_of
        (sqlite_engine empty_json)
        (run (sqlite_engine empty_json) (busy_hour (sqlite_engine empty_json)) after_batch))
    ⊎ Settled (sqlite_engine empty_json) 31 (busy_hour (sqlite_engine empty_json)) after_batch
unfolding capture_webhook vahak.Api.Cache.find_endpoint vahak.Prelude.lookup any
acknowledged_is_not_lost_example =
    acknowledged_is_not_lost (sqlite_engine empty_json) ingress webhook handler sent_item no_faults
      (sent_item ∷ []) sample_db after_batch (busy_hour (sqlite_engine empty_json))
      sample_db-IsConsistent refl refl (Memᴰ.head refl) (λ ch e v. reported ch e) refl refl refl
      refl

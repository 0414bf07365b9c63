-- ===== src/Tests/Forwarder.antt =====
-- The forwarder at concrete inputs, over the SQLite engine.
use vahak.Prelude.{
  ◌+◌, ◌*◌, ◌^◌, ◌≤◌, ◌<◌, ◌≡◌, refl, none, some, [], ◌∷◌, arith, lookup, find, any, select,
  string_eq,
}
use text.Mathlib.TextEquality.{eq_iff}
use vahak.Models.{second, pending, failed, Request}
use vahak.Circuit.{allow, get, breaker_allow}
use vahak.Retry.{max_attempts}
use vahak.Store.Db.{JobRow}
use vahak.Store.Sqlite.Jobs.{scan_job, save_delivery_job}
use vahak.Store.Sqlite.Implements.{sqlite_storage}
use vahak.Store.Sqlite.Reads.{job_at}
use vahak.Forwarder.Deliver.{outgoing, outgoing-ids, deliver}
use vahak.Forwarder.{World, prepare, after_failure, process_job}
use vahak.Forwarder.Survival.{Fate, process_job-Fate}
use vahak.Forwarder.Phases.{start_job, complete}
use vahak.Forwarder.Phases.Agrees.{complete-process_job}
use vahak.Forwarder.Gate.{Sends, process_job-Sends}
use vahak.Forwarder.Failure.{failure_counted}
use vahak.Tests.Fixtures.{empty_json, early_job, captured, http_with, world_with, idle_forwarder}

abbrev refusing : World
refusing = world_with (some 503)

outgoing-ids_run :
    lookup "X-Vahak-Event-ID" (outgoing (http_with none) "d-1" "http://shop" captured).headers
    ≡ some ("event" ∷ [])
outgoing-ids_run =
    (outgoing-ids (http_with none) "d-1" "http://shop" captured
      (ground (arith, eq_iff "X-Vahak-Delivery-ID" "X-Vahak-Event-ID"))
      (ground (arith, eq_iff "X-Vahak-Timestamp" "X-Vahak-Event-ID"))
      (ground (arith, eq_iff "X-Vahak-Timestamp" "X-Vahak-Delivery-ID"))).0

process_job-Fate_example :
    Fate
      (sqlite_storage empty_json)
      (scan_job early_job)
      idle_forwarder
      (process_job (sqlite_storage empty_json) refusing (scan_job early_job) idle_forwarder)
unfolding find
process_job-Fate_example =
    process_job-Fate (sqlite_storage empty_json) refusing (scan_job early_job) idle_forwarder
      early_job refl refl

process_job-Sends_example :
    Sends
      (sqlite_storage empty_json)
      refusing
      (scan_job early_job)
      idle_forwarder
      (process_job (sqlite_storage empty_json) refusing (scan_job early_job) idle_forwarder)
process_job-Sends_example =
    process_job-Sends (sqlite_storage empty_json) refusing (scan_job early_job) idle_forwarder

-- What the store has for the request of `early_job`.
abbrev loaded : Request
loaded = record captured { id = 10; source_ip = "10.0.0.1"; received_at = 6 }

failure_counted_run :
    (row : JobRow) × (job_at 20
        (process_job (sqlite_storage empty_json) refusing (scan_job early_job) idle_forwarder).store
      ≡ some row)
    × (row.attempts ≡ 3)
    × (row.last_attempt ≡ some 110)
    × (max_attempts ≤ 3 → row.status ≡ failed)
    × (3 < max_attempts
        → (row.status ≡ pending)
          × (110 ≤ row.next_attempt)
          × (row.next_attempt ≤ 110 + second * 4 ^ 3))
unfolding prepare find allow get breaker_allow deliver save_delivery_job after_failure any lookup
    vahak.Store.Sqlite.get_request select vahak.Store.Sqlite.get_endpoint
    vahak.Store.Sqlite.Jobs.upsert_job
failure_counted_run =
    failure_counted (sqlite_storage empty_json) refusing (scan_job early_job) loaded idle_forwarder
      refl refl refl refl refl (λ base. omega arith)

complete-process_job_run :
    complete (sqlite_storage empty_json) (
      start_job
        (sqlite_storage empty_json)
        (world_with (some 503))
        (scan_job early_job)
        idle_forwarder)
    ≡ process_job
        (sqlite_storage empty_json)
        (world_with (some 503))
        (scan_job early_job)
        idle_forwarder
complete-process_job_run =
    complete-process_job (sqlite_storage empty_json) (world_with (some 503)) (scan_job early_job)
      idle_forwarder

-- ===== src/Tests/FirstWrite.antt =====
-- A job of the fast mode whose first attempt fails before its request is written.
use vahak.Prelude.{◌≡◌, refl, none, some, [], ◌∷◌, is_some}
use vahak.Models.{DeliveryJob}
use vahak.Store.Sqlite.Implements.{sqlite_storage}
use vahak.Store.Sqlite.Reads.{job_at}
use vahak.Forwarder.{World, process_job, in_mem_request}
use vahak.Forwarder.FirstWrite.{FirstWrite, process_job-FirstWrite}
use vahak.Tests.Fixtures.{empty_json, captured_job, world_with, idle_forwarder}

abbrev fast_job : DeliveryJob
fast_job = record captured_job { in_mem_method = "POST"; in_mem_body = "hello" }

abbrev refusing : World
refusing = world_with (some 503)

process_job-FirstWrite_example :
    FirstWrite
      (sqlite_storage empty_json)
      fast_job
      idle_forwarder
      (process_job (sqlite_storage empty_json) refusing fast_job idle_forwarder)
unfolding vahak.Prelude.lookup vahak.Forwarder.prepare vahak.Store.Sqlite.get_endpoint
    vahak.Prelude.select vahak.Prelude.find
process_job-FirstWrite_example =
    process_job-FirstWrite (sqlite_storage empty_json) refusing fast_job (in_mem_request fast_job)
      idle_forwarder refl refl refl refl

lost_job :
    job_at 22 (process_job (sqlite_storage empty_json) refusing fast_job idle_forwarder).store
    ≡ none
unfolding vahak.Prelude.find process_job vahak.Prelude.lookup vahak.Store.Sqlite.get_endpoint
    vahak.Prelude.select vahak.Circuit.allow vahak.Circuit.breaker_allow vahak.Circuit.get
    vahak.Forwarder.Deliver.deliver vahak.Store.Sqlite.Jobs.save_delivery_job
    vahak.Store.Sqlite.Jobs.upsert_job vahak.Prelude.any vahak.Store.Db.insert_job
lost_job = refl

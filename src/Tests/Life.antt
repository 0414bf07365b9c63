-- ===== src/Tests/Life.antt =====
-- A life of the process in which the worker returns before a handler has sent its item.
use vahak.Prelude.{◌≡◌, refl, true, [], ◌∷◌}
use vahak.Store.Worker.{work, flush_buffer}
use vahak.Config.{postgres}
use vahak.Server.Life.{
  batch_worker, log_calls, waiting, exited, draining, Life, start_batch_worker, listening, send,
  drain_one, drained, close,
}
use vahak.Tests.Fixtures.{captured_item}

abbrev two_in_flight : Life
two_in_flight = record listening { in_flight = 2 }

abbrev one_sent : Life
one_sent = send postgres captured_item 1 two_in_flight

abbrev cancelled : Life
cancelled = record one_sent { shutting = true; stage = waiting; mode = draining }

abbrev worker_returned : Life
worker_returned =
    drained (log_calls true (drain_one cancelled.worker.ingest_ch cancelled.worker) cancelled)

abbrev late_send : Life
late_send = send postgres captured_item 0 worker_returned

abbrev over : Life
over = record (close late_send) { stage = exited }

-- The handler's item was taken in, and it is in no batch.
lost_item : (over.worker.ingest_ch ≡ captured_item ∷ []) × (over.left_behind ≡ 1)
unfolding listening start_batch_worker send log_calls batch_worker work drain_one drained
    flush_buffer close
lost_item = (refl, refl)

-- ===== src/Queue.antt =====
-- internal/queue/queue.go: the bounded queue between the HTTP handlers, the sweeper and the workers.
use vahak.Prelude.{ℕ, List, [], ◌∷◌, ◌++◌, length, ltb, if◌then◌else◌}
use vahak.Models.{DeliveryJob}

-- The buffer of the channel, the oldest job first, and its capacity.
pub record JobQueue : Type 0 where
  pub jobs : List DeliveryJob
  pub size : ℕ

abbrev pub new_job_queue : ℕ → JobQueue
new_job_queue size = record { jobs = []; size = size }

-- A job that does not fit is dropped.
unfoldable pub push : DeliveryJob → JobQueue → JobQueue
push job q = if ltb (length q.jobs) q.size then record q { jobs = q.jobs ++ job ∷ [] } else q

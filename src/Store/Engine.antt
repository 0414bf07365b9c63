-- ===== src/Store/Engine.antt =====
-- internal/store/interface.go: an engine with its batch worker and its pruning, what a job that is
-- pending in it outlasts, which jobs a claim hands out, and what leaves the endpoints alone.
use vahak.Prelude.{ℕ, ◌≤◌, ◌<◌, length, String, ◌≡◌, ◌⊎◌, Option, none, some, List, Memᴰ}
use vahak.Models.{Uuid, Time, DeliveryJob, pending}
use vahak.Store.Error.{Cause, Error, Result, ok}
use vahak.Store.Db.{JobRow}
use vahak.Store.Storage.{Storage}
use vahak.Store.Sqlite.Flush.{IngestItem, Notice}

-- A reader finds the job, and it is pending.
abbrev pub Pending : (storage : Storage) → Uuid → storage.State → Type 0
Pending storage k s = (row : JobRow) × (storage.job_at k s ≡ some row) × (row.status ≡ pending)

-- A reader of the endpoints sees no difference.
abbrev pub SameEndpoints : (storage : Storage) → storage.State → storage.State → Type 0
SameEndpoints storage s t =
    ((fault : Option Cause) (id : Uuid)
      → storage.get_endpoint fault id t ≡ storage.get_endpoint fault id s)
    × ((fault : Option Cause) → storage.list_endpoints fault t ≡ storage.list_endpoints fault s)

-- `Faults` are the refusals that one flushBatch may meet. `Owner id k s` says that the job `k` is for
-- a request to the endpoint `id`, and `Sound s` that the tables keep their constraints.
pub record Engine : Type 1 where
  pub storage : Storage
  pub Faults : Type 0
  pub flush_batch : Faults → List IngestItem → storage.State → storage.State × List Notice
  pub prune_expired :
      Option Cause
      → Option Cause
      → Time
      → ℕ
      → storage.State
      → storage.State × Result Error (Unit {0})
  pub Owner : Uuid → Uuid → storage.State → Type 0
  pub Sound : storage.State → Type 0
  pub create_endpoint-Pending :
      (k : Uuid) (fault : Option Cause) (id : Uuid) (now : Time) (name url script : String)
      (s : storage.State)
      → Pending storage k s
      → Pending storage k (storage.create_endpoint fault id now name url script s).0
  pub update_endpoint-Pending :
      (k : Uuid) (fault read_fault : Option Cause) (id : Uuid) (name url script : String)
      (s : storage.State)
      → Pending storage k s
      → Pending storage k (storage.update_endpoint fault read_fault id name url script s).0
  pub delete_endpoint-Pending :
      (k : Uuid) (fault : Option Cause) (id : Uuid) (s : storage.State)
      → Pending storage k s
      → Pending storage k (storage.delete_endpoint fault id s).0 ⊎ Owner id k s
  pub create_job-Pending :
      (k : Uuid) (fault : Option Cause) (id : Uuid) (now : Time) (request_id : Uuid) (url : String)
      (s : storage.State)
      → Pending storage k s
      → Pending storage k (storage.create_delivery_job fault id now request_id url s).0
  pub claim-Pending :
      (k : Uuid) (fault : Option Cause) (now : Time) (lease limit : ℕ) (s : storage.State)
      → Pending storage k s
      → Pending storage k (storage.claim_pending_jobs fault now lease limit s).0
  pub flush-Pending :
      (k : Uuid) (faults : Faults) (items : List IngestItem) (s : storage.State)
      → Pending storage k s
      → Pending storage k (flush_batch faults items s).0
  pub prune-Pending :
      (k : Uuid) (requests_fault jobs_fault : Option Cause) (now : Time) (days : ℕ)
      (s : storage.State)
      → Pending storage k s
      → Pending storage k (prune_expired requests_fault jobs_fault now days s).0
  pub flush-stores :
      (faults : Faults) (items : List IngestItem) (item : IngestItem) (job : DeliveryJob)
      (s : storage.State) (ch : ℕ)
      → Sound s
      → Memᴰ item items
      → item.job ≡ some job
      → job.status ≡ pending
      → Memᴰ (ch, none) (flush_batch faults items s).1
      → Pending storage job.id (flush_batch faults items s).0
  pub claim-hands :
      (k : Uuid) (now : Time) (lease limit : ℕ) (jobs : List DeliveryJob) (s : storage.State)
      → Sound s
      → (storage.claim_pending_jobs none now lease limit s).1 ≡ ok jobs
      → length jobs < limit
      → (row : JobRow) → storage.job_at k s ≡ some row
      → row.status ≡ pending
      → row.next_attempt ≤ now
      → (job : DeliveryJob) × Memᴰ job jobs × (job.id ≡ k) × (job.target_url ≡ row.target_url)
  pub flush-quiet :
      (faults : Faults) (items : List IngestItem) (s : storage.State)
      → SameEndpoints storage s (flush_batch faults items s).0
  pub claim-quiet :
      (fault : Option Cause) (now : Time) (lease limit : ℕ) (s : storage.State)
      → SameEndpoints storage s (storage.claim_pending_jobs fault now lease limit s).0
  pub save-quiet :
      (fault : Option Cause) (now : Time) (job : DeliveryJob) (s : storage.State)
      → SameEndpoints storage s (storage.save_delivery_job fault now job s).0
  pub mark-quiet :
      (fault : Option Cause) (now : Time) (ids : List Uuid) (s : storage.State)
      → SameEndpoints storage s (storage.batch_mark_delivered fault now ids s).0
  pub prune-quiet :
      (requests_fault jobs_fault : Option Cause) (now : Time) (days : ℕ) (s : storage.State)
      → SameEndpoints storage s (prune_expired requests_fault jobs_fault now days s).0

-- ===== src/Forwarder/GivesUp.antt =====
-- A job that fails again and again over the SQLite engine (internal/forwarder/forwarder.go:
-- processJob).
use vahak.Prelude.{
  ℕ, ◌+◌, ◌≤◌, ◌≡◌, refl, ap, subst, ◌∙◌, true, false, none, some, Option, List, [], ◌∷◌, arith,
  Bool, if◌then◌else◌, lookup, nat_eq, length, find, ==_iff, ◌==◌,
}
use vahak.Models.{Uuid, Request, DeliveryJob, failed}
use vahak.Circuit.{allow}
use vahak.Retry.{max_attempts}
use vahak.Store.Error.{ok}
use vahak.Store.Codec.{HeaderCodec}
use vahak.Store.Db.{JobRow}
use vahak.Store.Sqlite.Jobs.{scan_job}
use vahak.Store.Sqlite.Implements.{sqlite_storage}
use vahak.Store.Sqlite.Reads.{job_at}
use vahak.Forwarder.Deliver.{deliver}
use vahak.Forwarder.Failure.{failure_counted}
use vahak.Forwarder.{World, Forwarder, prepare, after_failure, process_job}

find-key :
    (k : Uuid) (rows : List JobRow) {row : JobRow}
    → find (λ j. j.id == k) rows ≡ some row
    → row.id ≡ k
unfolding find
find-key k [] h = absurd (cc h)
find-key k (r ∷ rows) {row} h = head_or_tail (r.id == k) refl (find-key k rows) h
  where
    head_or_tail :
        (b : Bool)
        → (r.id == k) ≡ b
        → (find (λ j. j.id == k) rows ≡ some row → row.id ≡ k)
        → (if b then some r else find (λ j. j.id == k) rows) ≡ some row
        → row.id ≡ k
    head_or_tail true e rest g =
        let same : r ≡ row = cc g in subst (λ x. x.id ≡ k) same ((==_iff r.id k).0 e)
    head_or_tail false e rest g = rest g

module _ (json : HeaderCodec) where
  -- An attempt at the job that the circuit permits, the network refuses and the store writes down,
  -- while nobody else processes it.
  pub record IsRefused (w : World) (job : DeliveryJob) (f : Forwarder (sqlite_storage json))
      : Type 0 where
    pub idle : lookup job.id f.processing ≡ none
    pub request : Request
    pub prepared : prepare (sqlite_storage json) w job f.store ≡ some request
    pub permitted : (allow f.circuits job.target_url w.now).0 ≡ true
    pub refused : (deliver w.http w.delivery_id job.target_url request).1 ≡ false
    pub written :
        ((sqlite_storage json).save_delivery_job w.save_fault w.finished
          (after_failure w job)
          f.store).1
        ≡ ok tt
    pub small_jitter : (base : ℕ) → w.jitter base ≤ base

  -- processJob on the job as the store has it.
  abbrev process_row :
      World → Option JobRow → Forwarder (sqlite_storage json) → Forwarder (sqlite_storage json)
  process_row w none f = f
  process_row w (some row) f = process_job (sqlite_storage json) w (scan_job row) f

  unfoldable pub retry :
      Uuid → World → Forwarder (sqlite_storage json) → Forwarder (sqlite_storage json)
  retry id w f = process_row w (job_at id f.store) f

  unfoldable pub retry_all :
      Uuid → List World → Forwarder (sqlite_storage json) → Forwarder (sqlite_storage json)
  unfolding retry
  retry_all id [] f = f
  retry_all id (w ∷ ws) f = retry_all id ws (retry id w f)

  abbrev RefusedRow : World → Option JobRow → Forwarder (sqlite_storage json) → Type 0
  RefusedRow w none f = Unit
  RefusedRow w (some row) f = IsRefused w (scan_job row) f

  -- Each attempt is refused, at the job as the store has it then.
  abbrev pub AllRefused : Uuid → List World → Forwarder (sqlite_storage json) → Type 0
  AllRefused id [] f = Unit
  AllRefused id (w ∷ ws) f = RefusedRow w (job_at id f.store) f × AllRefused id ws (retry id w f)

  retry-refused :
      (id : Uuid) (w : World) (f : Forwarder (sqlite_storage json)) (row : JobRow)
      → job_at id f.store ≡ some row
      → IsRefused w (scan_job row) f
      → (next : JobRow) × (job_at id (retry id w f).store ≡ some next)
        × (next.attempts ≡ row.attempts + 1)
        × (max_attempts ≤ row.attempts + 1 → next.status ≡ failed)
  unfolding retry
  retry-refused id w f row there r =
      let (next, found, counted, last, gave_up, again) =
        failure_counted (sqlite_storage json) w (scan_job row) r.request f r.idle r.prepared
          r.permitted r.refused r.written r.small_jitter in
      let same : row.id ≡ id = find-key id f.store.jobs there in
      let processed = ap (λ found. (process_row w found f).store) there in
      (
        next,
        ap (job_at id) processed
            ∙ subst
                (λ k.
                  job_at k (process_job (sqlite_storage json) w (scan_job row) f).store ≡ some next)
                same found,
        counted,
        gave_up,
      )

  -- A job is given up in the end: if the store has it with `a` attempts, it takes `max_attempts - a`
  -- attempts, each permitted by the circuit, refused by the network and written by the store, until
  -- the store has it as failed with `max_attempts` attempts.
  pub gives_up :
      (id : Uuid) (w : World) (ws : List World) (f : Forwarder (sqlite_storage json)) (row : JobRow)
      → job_at id f.store ≡ some row
      → row.attempts + (1 + length ws) ≡ max_attempts
      → AllRefused id (w ∷ ws) f
      → (last : JobRow) × (job_at id (retry_all id (w ∷ ws) f).store ≡ some last)
        × (last.status ≡ failed)
        × (last.attempts ≡ max_attempts)
  unfolding retry_all
  gives_up id w [] f row there enough (r, rest) =
      let (next, found, counted, gave_up) =
        retry-refused id w f row there (subst (λ o. RefusedRow w o f) there r) in
      (next, found, gave_up (omega arith), omega arith)
  gives_up id w (v ∷ ws) f row there enough (r, rest) =
      let (next, found, counted, gave_up) =
        retry-refused id w f row there (subst (λ o. RefusedRow w o f) there r) in
      gives_up id v ws (retry id w f) next found (omega arith) rest

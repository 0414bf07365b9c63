-- ===== src/Store/Postgres/Atomic.antt =====
-- flushBatch of the PostgreSQL engine is one transaction (internal/store/store.go).
use vahak.Prelude.{◌≡◌, subst, sym, ap, ◌⊎◌, inl, inr, Option, none, some, List, [], ◌∷◌, map}
use vahak.Models.{DeliveryJob}
use vahak.Store.Error.{
  Cause, Error, Result, ok, exec, exec-ok, wrap, wrap-ok, ◌>>=◌, >>=-eq-ok, Result-cases,
}
use vahak.Store.Codec.{HeaderCodec}
use vahak.Store.Db.{Db, insert_request, insert_job, insert_all}
use vahak.Store.Db.Integrity.{
  IsConsistent, insert_request-IsConsistent, insert_job-IsConsistent, insert_all-keeps,
}
use vahak.Store.Sqlite.Jobs.{job_row}
use vahak.Store.Sqlite.Flush.{IngestItem, notify, valid_jobs, ingest_row, settle, finish_tx}
use vahak.Store.Sqlite.History.{ok-injective}
use vahak.Store.Postgres.{CopyFaults, copy_jobs, copy_requests, copy_transaction, copy_batch}

-- The plain INSERTs of a whole batch.
abbrev pub plain_requests : HeaderCodec → List IngestItem → Db → Result Cause Db
plain_requests json items db = insert_all insert_request (map (ingest_row json) items) db

abbrev pub plain_jobs : List IngestItem → Db → Result Cause Db
plain_jobs items db = insert_all insert_job (map job_row (valid_jobs items)) db

copy_jobs-ok :
    (fault : Option Cause) (jobs : List DeliveryJob) (db : Db) {db' : Db}
    → copy_jobs fault jobs db ≡ ok db'
    → insert_all insert_job (map job_row jobs) db ≡ ok db'
unfolding copy_jobs insert_all
copy_jobs-ok fault [] db h = h
copy_jobs-ok fault (job ∷ jobs) db h = exec-ok fault _ h

finish_tx-ok : (fault : Option Cause) (db : Db) {db' : Db} → finish_tx fault db ≡ ok db' → db ≡ db'
finish_tx-ok none db h = cc h
finish_tx-ok (some c) db h = absurd (cc h)

module _ (json : HeaderCodec) where
  copy_transaction-ok :
      (faults : CopyFaults) (items : List IngestItem) (db : Db) {db' : Db}
      → copy_transaction json faults items db ≡ ok db'
      → (mid : Db) × (plain_requests json items db ≡ ok mid) × (plain_jobs items mid ≡ ok db')
  unfolding copy_transaction copy_requests
  copy_transaction-ok faults items db {db'} h =
      let begun = wrap "begin tx" (exec faults.begin_fault (ok db)) in
      let copied =
        λ (d : Db). wrap "copy requests" (copy_requests json faults.request_fault items d) in
      let filled =
        λ (d : Db). wrap "copy delivery_jobs" (copy_jobs faults.job_fault (valid_jobs items) d) in
      let (last, before, committed) =
        >>=-eq-ok (begun >>= copied >>= filled) (finish_tx faults.commit_fault) h in
      let (mid, requests, jobs) = >>=-eq-ok (begun >>= copied) filled before in
      let (start, opened, requests') = >>=-eq-ok begun copied requests in
      let same : db ≡ start =
        ok-injective (exec-ok faults.begin_fault (ok db) (wrap-ok "begin tx" _ opened)) in
      (
        mid,
        exec-ok faults.request_fault _ (
            wrap-ok "copy requests" (copy_requests json faults.request_fault items db)
              (subst (λ d. copied d ≡ ok mid) (sym same) requests')),
        subst (λ d. plain_jobs items mid ≡ ok d) (finish_tx-ok faults.commit_fault last committed)
            (copy_jobs-ok faults.job_fault (valid_jobs items) mid
              (wrap-ok "copy delivery_jobs" _ jobs)),
      )

  -- Whatever the driver refuses and whenever, flushBatch of the PostgreSQL engine leaves the tables
  -- that the plain INSERTs of all requests and then of all jobs leave, and tells every waiting
  -- handler that all is well; or it leaves the tables as they were, and tells every waiting handler
  -- of an error.
  pub copy_all_or_nothing :
      (faults : CopyFaults) (items : List IngestItem) (db : Db)
      → ((mid : Db) × (db' : Db) × (plain_requests json items db ≡ ok mid)
          × (plain_jobs items mid ≡ ok db')
          × (copy_batch json faults items db ≡ (db', notify none items)))
        ⊎ ((e : Error) × (copy_batch json faults items db ≡ (db, notify (some e) items)))
  unfolding copy_batch settle
  copy_all_or_nothing faults items db =
      elim (Result-cases (copy_transaction json faults items db)) [
        | inl (db', e) ↦
            let (mid, requests, jobs) = copy_transaction-ok faults items db e in
            inl (mid, db', requests, jobs, ap (settle db items) e)
        | inr (c, e) ↦ inr (c, ap (settle db items) e)
      ]

  pub copy_batch-IsConsistent :
      (faults : CopyFaults) (items : List IngestItem) (db : Db)
      → IsConsistent db
      → IsConsistent (copy_batch json faults items db).0
  copy_batch-IsConsistent faults items db c = elim (copy_all_or_nothing faults items db) [
    | inr (x, e) ↦ rw e c
    | inl (mid, db', requests, jobs, e) ↦ rw e (
        insert_all-keeps IsConsistent insert_job _ mid
          (λ row d d' k. insert_job-IsConsistent row d k)
          (insert_all-keeps IsConsistent insert_request _ db
            (λ row d d' k. insert_request-IsConsistent row d k) c requests)
          jobs)
  ]

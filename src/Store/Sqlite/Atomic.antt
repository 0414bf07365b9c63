-- ===== src/Store/Sqlite/Atomic.antt =====
-- flushBatch is all or nothing, and its chunks cannot be seen (internal/store/sqlite.go).
use vahak.Prelude.{
  ℕ, ◌≡◌, refl, ap, subst, ◌⊎◌, inl, inr, Option, none, some, List, [], ◌∷◌, ◌++◌, map, All,
  All-mem, Option-cases,
}
use mathlib.Core.List.{Memᴰ}
use vahak.Store.Error.{Error, ok, Result-cases}
use vahak.Store.Codec.{HeaderCodec}
use vahak.Store.Db.{Db}
use vahak.Store.Sqlite.Flush.{
  IngestItem, Notice, notify, FlushFaults, valid_jobs, ingest_job_row, ingest_row, settle,
  transaction, flush_batch,
}
use vahak.Store.Sqlite.Bulk.{
  no_faults, bulk_insert, bulk_insert-nil, bulk_insert-rows, transaction-ok, transaction-none,
}

notify-some :
    (e : Error) (items : List IngestItem)
    → All (λ (n : Notice). n.1 ≡ some e) (notify (some e) items)
unfolding notify
notify-some e [] = tt
notify-some e (item ∷ items) = elim (Option-cases item.result) [
  | inl silent ↦ rw silent (notify-some e items)
  | inr (ch, waiting) ↦ rw waiting (refl, notify-some e items)
]

-- Whoever is told of an error is not told that all is well.
pub not-mem-notify :
    (e : Error) (items : List IngestItem) (ch : ℕ) → ¬ Memᴰ (ch, none) (notify (some e) items)
not-mem-notify e items ch m =
    let told : ◌≡◌ {A = Option Error} none (some e) =
      All-mem (λ (n : Notice). n.1 ≡ some e) (notify-some e items) m in
    cc told

module _ (json : HeaderCodec) where
  -- Whatever the driver refuses and whenever, one of two things happens: the tables are those that
  -- the two plain INSERTs of the whole batch leave, and every waiting handler is told that all is
  -- well; or the tables are as they were, and every waiting handler is told of an error.
  pub flush_all_or_nothing :
      (faults : FlushFaults) (items : List IngestItem) (db : Db)
      → ((db' : Db) × (bulk_insert json items db ≡ ok db')
          × (flush_batch json faults items db ≡ (db', notify none items)))
        ⊎ ((e : Error) × (flush_batch json faults items db ≡ (db, notify (some e) items)))
  unfolding flush_batch notify
  flush_all_or_nothing faults [] db = inl (db, bulk_insert-nil json db, refl)
  flush_all_or_nothing faults (item ∷ items) db =
      elim (Result-cases (transaction json faults (item ∷ items) db)) [
        | inl (db', e) ↦ inl (
          db',
          transaction-ok json faults (item ∷ items) db db' e,
          ap (settle db (item ∷ items)) e,
        )
        | inr (c, e) ↦ inr (c, ap (settle db (item ∷ items)) e)
      ]

  -- When the driver refuses nothing, inserting in chunks of a hundred comes to inserting the whole
  -- batch at once: if the two plain INSERTs succeed, flushBatch leaves the tables that they leave
  -- and tells every waiting handler that all is well.
  pub flush-no_faults :
      (items : List IngestItem) (db db' : Db)
      → bulk_insert json items db ≡ ok db'
      → flush_batch json no_faults items db ≡ (db', notify none items)
  unfolding flush_batch notify
  flush-no_faults [] db db' h = cc (bulk_insert-nil json db)
  flush-no_faults (item ∷ items) db db' h =
      ap (settle db (item ∷ items)) (transaction-none json (item ∷ items) db db' h)

  -- If any handler is told that all is well, every request of the batch stands in the table, and so
  -- does every job that the batch carries, behind the rows that were there.
  pub flush_ack_durable :
      (faults : FlushFaults) (items : List IngestItem) (db : Db) (ch : ℕ)
      → Memᴰ (ch, none) (flush_batch json faults items db).1
      → let db' = (flush_batch json faults items db).0 in
        (db'.requests ≡ db.requests ++ map (ingest_row json) items)
        × (db'.jobs ≡ db.jobs ++ map ingest_job_row (valid_jobs items))
        × (db'.endpoints ≡ db.endpoints)
  flush_ack_durable faults items db ch m = elim (flush_all_or_nothing faults items db) [
    | inl (db', bulk, e) ↦ rw e (bulk_insert-rows json items db db' bulk)
    | inr (c, e) ↦ absurd (not-mem-notify c items ch (subst (λ r. Memᴰ (ch, none) r.1) e m))
  ]

-- ===== src/Store/Worker/Drain.antt =====
-- The batch worker loses nothing (batchWorker of internal/store/sqlite.go, internal/store/store.go).
use vahak.Prelude.{
  ℕ, ◌≡◌, refl, sym, ap, ◌∙◌, inl, inr, Bool-cases, List, [], ◌∷◌, ◌++◌, length, ltb, leb,
}
use mathlib.Core.List.{append-nil, append_assoc}
use vahak.Store.Sqlite.Flush.{IngestItem}
use vahak.Store.Worker.{
  Worker, new_worker, Event, arrives, receives, ticks, fill, drain, drain_limit, flush_buffer,
  receive, work, work_all, stop,
}

abbrev pub concat : List (List IngestItem) → List IngestItem
concat [] = []
concat (b ∷ bs) = b ++ concat bs

-- What the handlers sent.
unfoldable pub arrivals : List Event → List IngestItem
arrivals [] = []
arrivals (arrives item ∷ es) = item ∷ arrivals es
arrivals (receives ∷ es) = arrivals es
arrivals (ticks ∷ es) = arrivals es

concat-append : (xs ys : List (List IngestItem)) → concat (xs ++ ys) ≡ concat xs ++ concat ys
concat-append [] ys = refl
concat-append (b ∷ xs) ys =
    ap (λ l. b ++ l) (concat-append xs ys) ∙ sym (append_assoc b (concat xs) (concat ys))

concat-last :
    (xs : List (List IngestItem)) (b : List IngestItem) → concat (xs ++ b ∷ []) ≡ concat xs ++ b
concat-last xs b = concat-append xs (b ∷ []) ∙ ap (λ l. concat xs ++ l) (append-nil b)

-- Everything that the worker has seen or will see, in order.
abbrev pub held : Worker → List IngestItem
held w = concat w.batches ++ (w.buffer ++ w.ingest_ch)

fill-keeps :
    (limit : ℕ) (buffer ch : List IngestItem)
    → let r = fill limit buffer ch in r.0 ++ r.1 ≡ buffer ++ ch
unfolding fill
fill-keeps limit buffer [] = refl
fill-keeps limit buffer (next ∷ ch) = elim (Bool-cases (ltb (length buffer) limit)) [
  | inl room ↦
      rw room (fill-keeps limit (buffer ++ next ∷ []) ch ∙ append_assoc buffer (next ∷ []) ch)
  | inr full ↦ rw full refl
]

drain-keeps : (buffer ch : List IngestItem) → concat (drain buffer ch) ≡ buffer ++ ch
unfolding drain
drain-keeps [] [] = refl
drain-keeps (item ∷ buffer) [] = refl
drain-keeps buffer (item ∷ ch) =
    elim (Bool-cases (leb drain_limit (length (buffer ++ item ∷ [])))) [
      | inl full ↦ rw full (
          ap (λ l. (buffer ++ item ∷ []) ++ l) (drain-keeps [] ch)
          ∙ append_assoc buffer (item ∷ []) ch)
      | inr more ↦
          rw more (drain-keeps (buffer ++ item ∷ []) ch ∙ append_assoc buffer (item ∷ []) ch)
    ]

receive-held :
    (limit : ℕ) (ch : List IngestItem) (w : Worker)
    → w.ingest_ch ≡ ch
    → held (receive limit ch w) ≡ held w
unfolding receive
receive-held limit [] w e = refl
receive-held limit (item ∷ ch) w e =
    let r = fill limit (w.buffer ++ item ∷ []) ch in
    ap (λ l. l ++ r.1) (concat-last w.batches r.0)
    ∙ append_assoc (concat w.batches) r.0 r.1
    ∙ ap (λ l. concat w.batches ++ l)
        (fill-keeps limit (w.buffer ++ item ∷ []) ch
          ∙ append_assoc w.buffer (item ∷ []) ch
          ∙ ap (λ l. w.buffer ++ l) (sym e))

pub flush_buffer-held :
    (buffer : List IngestItem) (w : Worker)
    → w.buffer ≡ buffer
    → held (flush_buffer buffer w) ≡ held w
unfolding flush_buffer
flush_buffer-held [] w e = refl
flush_buffer-held (item ∷ items) w e =
    ap (λ l. l ++ w.ingest_ch) (concat-last w.batches (item ∷ items))
    ∙ append_assoc (concat w.batches) (item ∷ items) w.ingest_ch
    ∙ ap (λ l. concat w.batches ++ (l ++ w.ingest_ch)) (sym e)

pub work-held :
    (limit : ℕ) (e : Event) (w : Worker) → held (work limit e w) ≡ held w ++ arrivals (e ∷ [])
unfolding work arrivals
work-held limit (arrives item) w =
    ap (λ l. concat w.batches ++ l) (sym (append_assoc w.buffer w.ingest_ch (item ∷ [])))
    ∙ sym (append_assoc (concat w.batches) (w.buffer ++ w.ingest_ch) (item ∷ []))
work-held limit receives w = receive-held limit w.ingest_ch w refl ∙ sym (append-nil (held w))
work-held limit ticks w = flush_buffer-held w.buffer w refl ∙ sym (append-nil (held w))

arrivals-cons : (e : Event) (es : List Event) → arrivals (e ∷ es) ≡ arrivals (e ∷ []) ++ arrivals es
unfolding arrivals
arrivals-cons (arrives item) es = refl
arrivals-cons receives es = refl
arrivals-cons ticks es = refl

work_all-held :
    (limit : ℕ) (es : List Event) (w : Worker) → held (work_all limit es w) ≡ held w ++ arrivals es
unfolding work_all arrivals
work_all-held limit [] w = sym (append-nil (held w))
work_all-held limit (e ∷ es) w =
    work_all-held limit es (work limit e w)
    ∙ ap (λ l. l ++ arrivals es) (work-held limit e w)
    ∙ append_assoc (held w) (arrivals (e ∷ [])) (arrivals es)
    ∙ ap (λ l. held w ++ l) (sym (arrivals-cons e es))

-- Whatever the order in which webhooks arrive, the worker receives and the ticker fires, once the
-- worker has stopped the flushed batches, one after another, list exactly the webhooks that arrived
-- before, in the order of their arrival, and nothing is left in the buffer or in the channel.
pub stop_drains :
    (limit : ℕ) (es : List Event)
    → let w = stop (work_all limit es new_worker) in
      (concat w.batches ≡ arrivals es) × (w.buffer ≡ []) × (w.ingest_ch ≡ [])
unfolding stop
stop_drains limit es =
    let w = work_all limit es new_worker in
    (
      concat-append w.batches (drain w.buffer w.ingest_ch)
          ∙ ap (λ l. concat w.batches ++ l) (drain-keeps w.buffer w.ingest_ch)
          ∙ work_all-held limit es new_worker,
      refl,
      refl,
    )

-- ===== src/Store/Worker/Sizes.antt =====
-- The sizes of the batches (batchWorker of internal/store/sqlite.go, internal/store/store.go).
use vahak.Prelude.{
  ℕ, suc, ◌≤◌, ◌<◌, ◌≡◌, refl, ap, inl, inr, Bool-cases, List, [], ◌∷◌, ◌++◌, length, length-append,
  ltb, leb, arith, All, All-append,
}
use vahak.Store.Sqlite.Flush.{IngestItem}
use vahak.Store.Worker.{
  Worker, new_worker, Event, arrives, receives, ticks, fill, drain, drain_limit, flush_buffer,
  receive, work, work_all, stop,
}

abbrev pub Sized : ℕ → List IngestItem → Type 0
Sized limit b = (1 ≤ length b) × (length b ≤ limit)

fill_bounds :
    (limit : ℕ) (buffer ch : List IngestItem)
    → length buffer ≤ limit
    → (length buffer ≤ length (fill limit buffer ch).0) × (length (fill limit buffer ch).0 ≤ limit)
unfolding fill
fill_bounds limit buffer [] h = (omega arith, h)
fill_bounds limit buffer (next ∷ ch) h = elim (Bool-cases (ltb (length buffer) limit)) [
  | inr full ↦ rw full (omega arith, h)
  | inl room ↦
      let longer : length (buffer ++ next ∷ []) ≡ suc (length buffer) =
        omega (arith, length-append buffer (next ∷ [])) in
      let (low, high) = fill_bounds limit (buffer ++ next ∷ []) ch (ground (arith, longer)) in
      rw room (omega (arith, low, longer), high)
]

drain-Sized :
    (limit : ℕ) (buffer ch : List IngestItem)
    → drain_limit ≤ limit
    → length buffer < drain_limit
    → All (Sized limit) (drain buffer ch)
unfolding drain
drain-Sized limit [] [] wide h = tt
drain-Sized limit (item ∷ buffer) [] wide h = ((omega arith, omega arith), tt)
drain-Sized limit buffer (item ∷ ch) wide h =
    let longer : length (buffer ++ item ∷ []) ≡ suc (length buffer) =
      omega (arith, length-append buffer (item ∷ [])) in
    elim (Bool-cases (leb drain_limit (length (buffer ++ item ∷ [])))) [
      | inl full ↦ rw full (
        (omega (arith, longer), omega (arith, longer, h, wide)),
        drain-Sized limit [] ch wide (omega arith),
      )
      | inr more ↦
          rw more (drain-Sized limit (buffer ++ item ∷ []) ch wide (ground (arith, longer)))
    ]

-- Between two events the buffer is empty, and each batch so far has a good size.
pub record IsSized (limit : ℕ) (w : Worker) : Type 0 where
  pub empty : w.buffer ≡ []
  pub sizes : All (Sized limit) w.batches

receive-IsSized :
    (limit : ℕ) (ch : List IngestItem) (w : Worker)
    → 1 ≤ limit
    → IsSized limit w
    → IsSized limit (receive limit ch w)
unfolding receive
receive-IsSized limit [] w some_room s = s
receive-IsSized limit (item ∷ ch) w some_room s =
    let one : length (w.buffer ++ item ∷ []) ≡ 1 = ap (λ b. length (b ++ item ∷ [])) s.empty in
    let (low, high) =
      fill_bounds limit (w.buffer ++ item ∷ []) ch (omega (arith, one, some_room)) in
    record {
      empty = refl;
      sizes = All-append (Sized limit) w.batches _ s.sizes ((omega (arith, one, low), high), tt);
    }

flush_buffer-IsSized :
    (limit : ℕ) (buffer : List IngestItem) (w : Worker)
    → w.buffer ≡ buffer
    → IsSized limit w
    → IsSized limit (flush_buffer buffer w)
unfolding flush_buffer
flush_buffer-IsSized limit [] w e s = s
flush_buffer-IsSized limit (item ∷ items) w e s = absurd (cc (e, s.empty))

work_all-IsSized :
    (limit : ℕ) (es : List Event) (w : Worker)
    → 1 ≤ limit
    → IsSized limit w
    → IsSized limit (work_all limit es w)
unfolding work_all work
work_all-IsSized limit [] w some_room s = s
work_all-IsSized limit (arrives item ∷ es) w some_room s =
    work_all-IsSized limit es (work limit (arrives item) w) some_room
      (record { empty = s.empty; sizes = s.sizes })
work_all-IsSized limit (receives ∷ es) w some_room s =
    work_all-IsSized limit es (work limit receives w) some_room
      (receive-IsSized limit w.ingest_ch w some_room s)
work_all-IsSized limit (ticks ∷ es) w some_room s =
    work_all-IsSized limit es (work limit ticks w) some_room
      (flush_buffer-IsSized limit w.buffer w refl s)

-- No batch that is flushed is empty and none has more items than the limit, those of the final
-- drain included, as long as the limit is not below that of the drain (both engines' is not).
pub stop_sizes :
    (limit : ℕ) (es : List Event)
    → drain_limit ≤ limit
    → All (λ b. (1 ≤ length b) × (length b ≤ limit)) (stop (work_all limit es new_worker)).batches
unfolding stop
stop_sizes limit es wide =
    let w = work_all limit es new_worker in
    let s =
      work_all-IsSized limit es new_worker (omega (arith, wide))
        (record { empty = refl; sizes = tt }) in
    All-append (Sized limit) w.batches _ s.sizes
      (drain-Sized limit w.buffer w.ingest_ch wide (omega (arith, ap length s.empty)))

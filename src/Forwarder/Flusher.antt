-- ===== src/Forwarder/Flusher.antt =====
-- internal/forwarder/forwarder.go: the goroutine of Start that marks delivered jobs in batches.
use vahak.Prelude.{
  ℕ, suc, ◌≡◌, ◌≤◌, ◌<◌, refl, sym, ap, ◌∙◌, inl, inr, Bool-cases, List, [], ◌∷◌, ◌++◌, length,
  length-append, leb, arith, if◌then◌else◌, All, All-append,
}
use mathlib.Core.List.{append-nil, append_assoc}
use vahak.Models.{Uuid}

abbrev pub flush_limit : ℕ
flush_limit = 200

-- `calls` lists what BatchMarkDelivered was called with, the oldest call first.
pub record Flusher : Type 0 where
  pub ids : List Uuid
  pub calls : List (List Uuid)

abbrev pub new_flusher : Flusher
new_flusher = record { ids = []; calls = [] }

-- `ids = nil` follows the call whether it fails or not.
unfoldable pub flush_ids : List Uuid → List (List Uuid) → Flusher
flush_ids [] calls = record { ids = []; calls = calls }
flush_ids (id ∷ ids) calls = record { ids = []; calls = calls ++ (id ∷ ids) ∷ [] }

pub data Event : Type 0 where
  delivers : Uuid → Event
  ticks : Event

unfoldable pub flusher_step : Event → Flusher → Flusher
unfolding flush_ids
flusher_step ticks f = flush_ids f.ids f.calls
flusher_step (delivers id) f =
    let ids = f.ids ++ id ∷ [] in
    if leb flush_limit (length ids) then flush_ids ids f.calls else record f { ids = ids }

unfoldable pub flusher_run : List Event → Flusher → Flusher
unfolding flusher_step
flusher_run [] f = f
flusher_run (e ∷ es) f = flusher_run es (flusher_step e f)

-- Cancellation: what is left is flushed.
unfoldable pub flusher_stop : Flusher → Flusher
unfolding flush_ids
flusher_stop f = flush_ids f.ids f.calls

abbrev pub joined : List (List Uuid) → List Uuid
joined [] = []
joined (call ∷ calls) = call ++ joined calls

-- The identifiers that came over the channel.
unfoldable pub delivered_ids : List Event → List Uuid
delivered_ids [] = []
delivered_ids (delivers id ∷ es) = id ∷ delivered_ids es
delivered_ids (ticks ∷ es) = delivered_ids es

joined-last :
    (calls : List (List Uuid)) (call : List Uuid)
    → joined (calls ++ call ∷ []) ≡ joined calls ++ call
joined-last [] call = append-nil call
joined-last (c ∷ calls) call =
    ap (λ l. c ++ l) (joined-last calls call) ∙ sym (append_assoc c (joined calls) call)

abbrev seen : Flusher → List Uuid
seen f = joined f.calls ++ f.ids

flush_ids-seen :
    (ids : List Uuid) (calls : List (List Uuid)) → seen (flush_ids ids calls) ≡ joined calls ++ ids
unfolding flush_ids
flush_ids-seen [] calls = refl
flush_ids-seen (id ∷ ids) calls =
    append-nil (joined (calls ++ (id ∷ ids) ∷ [])) ∙ joined-last calls (id ∷ ids)

flush_ids-empty : (ids : List Uuid) (calls : List (List Uuid)) → (flush_ids ids calls).ids ≡ []
unfolding flush_ids
flush_ids-empty [] calls = refl
flush_ids-empty (id ∷ ids) calls = refl

flusher_step-seen :
    (e : Event) (f : Flusher) → seen (flusher_step e f) ≡ seen f ++ delivered_ids (e ∷ [])
unfolding flusher_step delivered_ids
flusher_step-seen ticks f = flush_ids-seen f.ids f.calls ∙ sym (append-nil (seen f))
flusher_step-seen (delivers id) f =
    let ids = f.ids ++ id ∷ [] in
    let moved = sym (append_assoc (joined f.calls) f.ids (id ∷ [])) in
    elim (Bool-cases (leb flush_limit (length ids))) [
      | inl full ↦ rw (full, flusher_step) (flush_ids-seen ids f.calls ∙ moved)
      | inr room ↦ rw (room, flusher_step) moved
    ]

delivered_ids-cons :
    (e : Event) (es : List Event)
    → delivered_ids (e ∷ []) ++ delivered_ids es ≡ delivered_ids (e ∷ es)
unfolding delivered_ids
delivered_ids-cons (delivers id) es = refl
delivered_ids-cons ticks es = refl

flusher_run-seen :
    (es : List Event) (f : Flusher) → seen (flusher_run es f) ≡ seen f ++ delivered_ids es
unfolding flusher_run delivered_ids
flusher_run-seen [] f = sym (append-nil (seen f))
flusher_run-seen (e ∷ es) f =
    flusher_run-seen es (flusher_step e f)
    ∙ ap (λ l. l ++ delivered_ids es) (flusher_step-seen e f)
    ∙ append_assoc (seen f) (delivered_ids (e ∷ [])) (delivered_ids es)
    ∙ ap (λ l. seen f ++ l) (delivered_ids-cons e es)

IsGood : Flusher → Type 0
IsGood f =
    (length f.ids < flush_limit) × All (λ c. (1 ≤ length c) × (length c ≤ flush_limit)) f.calls

flush_ids-IsGood :
    (ids : List Uuid) (calls : List (List Uuid))
    → length ids ≤ flush_limit
    → All (λ c. (1 ≤ length c) × (length c ≤ flush_limit)) calls
    → IsGood (flush_ids ids calls)
unfolding IsGood flush_ids
flush_ids-IsGood [] calls h all = (omega arith, all)
flush_ids-IsGood (id ∷ ids) calls h all =
    (omega arith, All-append _ calls _ all ((omega arith, h), tt))

flusher_step-IsGood : (e : Event) (f : Flusher) → IsGood f → IsGood (flusher_step e f)
unfolding flusher_step IsGood
flusher_step-IsGood ticks f g = flush_ids-IsGood f.ids f.calls (omega (arith, g.0)) g.1
flusher_step-IsGood (delivers id) f g =
    let ids = f.ids ++ id ∷ [] in
    let longer : length ids ≡ suc (length f.ids) = omega (arith, length-append f.ids (id ∷ [])) in
    elim (Bool-cases (leb flush_limit (length ids))) [
      | inl full ↦
          rw (full, flusher_step) (flush_ids-IsGood ids f.calls (omega (arith, longer, g.0)) g.1)
      | inr room ↦ rw (room, flusher_step) (ground (arith, longer), g.1)
    ]

flusher_run-IsGood : (es : List Event) (f : Flusher) → IsGood f → IsGood (flusher_run es f)
unfolding flusher_run
flusher_run-IsGood [] f g = g
flusher_run-IsGood (e ∷ es) f g =
    flusher_run-IsGood es (flusher_step e f) (flusher_step-IsGood e f g)

-- However the deliveries and the ticks alternate, once the flusher has stopped its calls, one after
-- another, list every identifier that it was given, in order, and each call has between one and two
-- hundred of them.
pub flusher_marks_each :
    (es : List Event)
    → let f = flusher_stop (flusher_run es new_flusher) in
      (joined f.calls ++ f.ids ≡ delivered_ids es)
      × (f.ids ≡ [])
      × All (λ c. (1 ≤ length c) × (length c ≤ flush_limit)) f.calls
unfolding flusher_stop IsGood
flusher_marks_each es =
    let f = flusher_run es new_flusher in
    let good = flusher_run-IsGood es new_flusher (omega arith, tt) in
    (
      flush_ids-seen f.ids f.calls ∙ flusher_run-seen es new_flusher,
      flush_ids-empty f.ids f.calls,
      (flush_ids-IsGood f.ids f.calls (omega (arith, good.0)) good.1).1,
    )

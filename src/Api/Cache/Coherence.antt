-- ===== src/Api/Cache/Coherence.antt =====
-- What a webhook sees of the endpoint cache, and of the PUTs and DELETEs before it
-- (internal/api/handler.go).
use vahak.Prelude.{
  ◌-◌, ◌≡◌, refl, sym, ap, ◌∙◌, ◌⊎◌, inl, inr, ◌||◌, Option, none, some, List, ◌<◌, lookup, nat_eq,
  lookup-insert, lookup-erase, str_eq, ltb, arith, Bool-cases, Option-cases,
}
use vahak.Models.{Uuid, Time, Endpoint, minute}
use vahak.Store.Error.{Cause, Result, ok, err, Result-cases}
use vahak.Store.Storage.{Storage}
use vahak.Api.{Handler, CachedEndpoint, endpoint_payload}
use vahak.Api.Cache.{
  Lookup, EndpointPatch, merge, fresh_entry, fetch_endpoint, find_endpoint, finish_update,
  handle_update, finish_delete, handle_delete,
}

fresh_entry-some :
    (now : Time) (id : Uuid) (cache : List (Uuid × CachedEndpoint)) (ep : Endpoint)
    → (fresh_entry now id cache).0 ≡ some ep
    → (entry : CachedEndpoint) × (lookup id cache ≡ some entry)
      × (entry.ep ≡ ep)
      × (now - entry.cached_at < minute)
unfolding fresh_entry
fresh_entry-some now id cache ep h = elim (Option-cases (lookup id cache)) [
  | inl missing ↦ absurd (ground arith)
  | inr (entry, there) ↦ elim (Bool-cases (ltb (now - entry.cached_at) minute)) [
    | inl young ↦ (entry, there, ground arith, ground arith)
    | inr old ↦ absurd (ground arith)
  ]
]

fresh_entry-young :
    (now : Time) (id : Uuid) (cache : List (Uuid × CachedEndpoint)) (entry : CachedEndpoint)
    → lookup id cache ≡ some entry
    → now - entry.cached_at < minute
    → fresh_entry now id cache ≡ (some entry.ep, cache)
unfolding fresh_entry
fresh_entry-young now id cache entry there young = ground arith

fresh_entry-missing :
    (now : Time) (id : Uuid) (cache : List (Uuid × CachedEndpoint))
    → lookup id cache ≡ none
    → fresh_entry now id cache ≡ (none, cache)
unfolding fresh_entry
fresh_entry-missing now id cache missing = ground arith

module _ (storage : Storage) where
  open storage use {State, get_endpoint, update_endpoint, delete_endpoint}

  fetch_endpoint-some :
      (w : Lookup) (id : Uuid) (h : Handler storage) (ep : Endpoint)
      → (fetch_endpoint storage w id h).0 ≡ some ep
      → get_endpoint w.endpoint_fault id h.store ≡ ok ep
  unfolding fetch_endpoint
  fetch_endpoint-some w id h ep found = ground arith

  -- An endpoint that a webhook is given is what the store answers now, or stands in the cache since
  -- less than a minute.
  pub find_endpoint_is_recent :
      (w : Lookup) (id : Uuid) (h : Handler storage) (ep : Endpoint)
      → (find_endpoint storage w id h).0 ≡ some ep
      → (get_endpoint w.endpoint_fault id h.store ≡ ok ep)
        ⊎ ((entry : CachedEndpoint) × (lookup id h.ep_cache ≡ some entry)
            × (entry.ep ≡ ep)
            × (w.checked_at - entry.cached_at < minute))
  unfolding find_endpoint
  find_endpoint_is_recent w id h ep found =
      elim (Option-cases (fresh_entry w.checked_at id h.ep_cache).0) [
        | inl stale ↦ inl (
            fetch_endpoint-some w id
              (record h { ep_cache = (fresh_entry w.checked_at id h.ep_cache).1 }) ep
              (rw (stale, find_endpoint) at found))
        | inr (ep', fresh) ↦ inr (fresh_entry-some w.checked_at id h.ep_cache ep (ground arith))
      ]

  find_endpoint-young :
      (w : Lookup) (id : Uuid) (h : Handler storage) (entry : CachedEndpoint)
      → lookup id h.ep_cache ≡ some entry
      → w.checked_at - entry.cached_at < minute
      → (find_endpoint storage w id h).0 ≡ some entry.ep
  unfolding find_endpoint
  find_endpoint-young w id h entry there young =
      rw (fresh_entry-young w.checked_at id h.ep_cache entry there young, find_endpoint) refl

  find_endpoint-missing :
      (w : Lookup) (id : Uuid) (h : Handler storage)
      → lookup id h.ep_cache ≡ none
      → find_endpoint storage w id h ≡ fetch_endpoint storage w id h
  unfolding find_endpoint
  find_endpoint-missing w id h missing =
      let same = fresh_entry-missing w.checked_at id h.ep_cache missing in
      rw (same, find_endpoint)
        (ap (λ c. fetch_endpoint storage w id (record h { ep_cache = c })) (ap (λ r. r.1) same))

  finish_update-caches :
      (now : Time) (id : Uuid) (r : State × Result vahak.Store.Error.Error Endpoint)
      (h : Handler storage)
      → (finish_update storage now id r h).0.status ≡ 200
      → (ep : Endpoint) × ((finish_update storage now id r h).0.payload ≡ endpoint_payload ep)
        × (lookup id (finish_update storage now id r h).1.ep_cache
            ≡ some (record { ep = ep; cached_at = now }))
  unfolding finish_update
  finish_update-caches now id (s, err e) h done = absurd (ground arith)
  finish_update-caches now id (s, ok ep) h done = (
    ep,
    refl,
    ground (arith, lookup-insert id id (record { ep = ep; cached_at = now }) h.ep_cache),
  )

  handle_update-done :
      (read_fault fault reread_fault : Option Cause) (now : Time) (id : Uuid)
      (patch : Option EndpointPatch) (h : Handler storage)
      → (handle_update storage read_fault fault reread_fault now (some id) patch h).0.status ≡ 200
      → (r : State × Result vahak.Store.Error.Error Endpoint) × (handle_update storage read_fault
            fault reread_fault now
            (some id)
            patch
            h
          ≡ finish_update storage now id r h)
  unfolding handle_update
  handle_update-done read_fault fault reread_fault now id none h done =
      elim (Result-cases (get_endpoint read_fault id h.store)) [
        | inl (existing, e) ↦ absurd (ground arith)
        | inr (c, e) ↦ absurd (ground arith)
      ]
  handle_update-done read_fault fault reread_fault now id (some fields) h done =
      elim (Result-cases (get_endpoint read_fault id h.store)) [
        | inr (c, e) ↦ absurd (ground arith)
        | inl (existing, e) ↦
            let merged = merge fields existing in
            elim (Bool-cases (str_eq merged.target_url "" || str_eq merged.name "")) [
              | inl empty ↦ absurd (ground arith)
              | inr full ↦ (
                update_endpoint fault reread_fault id merged.name merged.target_url
                    merged.transformer_script h.store,
                rw (e, handle_update) (rw full refl),
              )
            ]
      ]

  -- A PUT that is answered with 200 can be seen at once: for a minute after it, a webhook for that
  -- endpoint is given the very endpoint of the answer, whatever the cache held before.
  pub update_is_seen :
      (read_fault fault reread_fault : Option Cause) (now : Time) (id : Uuid)
      (patch : Option EndpointPatch) (h : Handler storage) (w : Lookup)
      → let after = handle_update storage read_fault fault reread_fault now (some id) patch h in
        after.0.status ≡ 200
        → w.checked_at - now < minute
        → (ep : Endpoint) × (after.0.payload ≡ endpoint_payload ep)
          × ((find_endpoint storage w id after.1).0 ≡ some ep)
  update_is_seen read_fault fault reread_fault now id patch h w done young =
      let (r, same) = handle_update-done read_fault fault reread_fault now id patch h done in
      let (ep, told, stored) =
        finish_update-caches now id r h (ap (λ x. x.0.status) (sym same) ∙ done) in
      (
        ep,
        ap (λ x. x.0.payload) same ∙ told,
        ap (λ x. (find_endpoint storage w id x.1).0) same
            ∙ find_endpoint-young w id (finish_update storage now id r h).1
                (record { ep = ep; cached_at = now }) stored young,
      )

  finish_delete-forgets :
      (id : Uuid) (r : State × Result vahak.Store.Error.Error (Unit {0})) (h : Handler storage)
      → (finish_delete storage id r h).0.status ≡ 204
      → lookup id (finish_delete storage id r h).1.ep_cache ≡ none
  unfolding finish_delete
  finish_delete-forgets id (s, err e) h done = absurd (ground arith)
  finish_delete-forgets id (s, ok u) h done = ground (arith, lookup-erase id id h.ep_cache)

  -- A DELETE that is answered with 204 can be seen at once: the next webhook for that endpoint is
  -- given what the store answers, and nothing out of the cache.
  pub delete_is_seen :
      (fault : Option Cause) (id : Uuid) (h : Handler storage) (w : Lookup)
      → let after = handle_delete storage fault (some id) h in
        after.0.status ≡ 204
        → find_endpoint storage w id after.1 ≡ fetch_endpoint storage w id after.1
  unfolding handle_delete
  delete_is_seen fault id h w done =
      find_endpoint-missing w id _
        (finish_delete-forgets id (delete_endpoint fault id h.store) h done)

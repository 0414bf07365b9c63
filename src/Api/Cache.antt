-- ===== src/Api/Cache.antt =====
-- The endpoint cache of the handlers (internal/api/handler.go): the lookup that CaptureWebhook makes,
-- and the two handlers that write to it, UpdateEndpoint and DeleteEndpoint.
pub mod Coherence
use vahak.Prelude.{
  ℕ, ◌-◌, ◌≡◌, refl, sym, ap, ◌∙◌, ◌⊎◌, inl, inr, String, Bool, true, false, ◌||◌, Option, none,
  some, List, ◌<◌, lookup, insert, erase, nat_eq, lookup-insert, lookup-erase, str_eq, ltb,
  if◌then◌else◌, arith, Bool-cases, Option-cases,
}
use vahak.Models.{Uuid, Time, Endpoint, minute}
use vahak.Store.Error.{Cause, Result, ok, err, Result-cases}
use vahak.Store.Storage.{Storage}
use vahak.Api.{
  Handler, CachedEndpoint, Reply, write_json, write_error, endpoint_payload, no_payload,
}

-- What one lookup reads of the outside: the clock at time.Since and at the Store, and the driver.
pub record Lookup : Type 0 where
  pub checked_at : Time
  pub cached_at : Time
  pub endpoint_fault : Option Cause

-- The body of a PUT, whose fields are pointers.
pub record EndpointPatch : Type 0 where
  pub name : Option String
  pub target_url : Option String
  pub transformer_script : Option String

abbrev pub provided : Option String → String → String
provided none old = old
provided (some new) old = new

abbrev pub merge : EndpointPatch → Endpoint → Endpoint
merge patch existing = record existing {
  name = provided patch.name existing.name;
  target_url = provided patch.target_url existing.target_url;
  transformer_script = provided patch.transformer_script existing.transformer_script;
}

-- The cached endpoint, if it is less than a minute old; an older entry is deleted.
unfoldable pub fresh_entry :
    Time → Uuid → List (Uuid × CachedEndpoint) → Option Endpoint × List (Uuid × CachedEndpoint)
fresh_entry now id cache = elim (lookup id cache) [
  | none ↦ (none, cache)
  | some entry ↦
      if ltb (now - entry.cached_at) minute then (some entry.ep, cache) else (none, erase id cache)
]

module _ (storage : Storage) where
  open storage use {State, get_endpoint, update_endpoint, delete_endpoint}

  -- GetEndpoint, whose answer goes to the cache.
  unfoldable pub fetch_endpoint :
      Lookup → Uuid → Handler storage → Option Endpoint × Handler storage
  fetch_endpoint w id h = elim (get_endpoint w.endpoint_fault id h.store) [
    | err e ↦ (none, h)
    | ok ep ↦ (
      some ep,
      record h { ep_cache = insert id (record { ep = ep; cached_at = w.cached_at }) h.ep_cache },
    )
  ]

  -- The endpoint of a webhook, or none for a 404.
  unfoldable pub find_endpoint : Lookup → Uuid → Handler storage → Option Endpoint × Handler storage
  unfolding fresh_entry fetch_endpoint
  find_endpoint w id h =
      let (cached, cache) = fresh_entry w.checked_at id h.ep_cache in
      elim cached [
        | some ep ↦ (some ep, record h { ep_cache = cache })
        | none ↦ fetch_endpoint w id (record h { ep_cache = cache })
      ]

  -- From the UPDATE on.
  unfoldable pub finish_update :
      Time
      → Uuid
      → State × Result vahak.Store.Error.Error Endpoint
      → Handler storage
      → Reply × Handler storage
  finish_update now id (s, err e) h =
      (write_error 500 "failed to update endpoint", record h { store = s })
  finish_update now id (s, ok ep) h = (
    write_json 200 (endpoint_payload ep),
    record h { store = s; ep_cache = insert id (record { ep = ep; cached_at = now }) h.ep_cache },
  )

  -- PUT /endpoints/{id}. `id` and `patch` are none where the text cannot be parsed. The faults are
  -- those of the first SELECT, of the UPDATE, and of the SELECT after it.
  unfoldable pub handle_update :
      Option Cause
      → Option Cause
      → Option Cause
      → Time
      → Option Uuid
      → Option EndpointPatch
      → Handler storage
      → Reply × Handler storage
  unfolding finish_update
  handle_update read_fault fault reread_fault now none patch h =
      (write_error 400 "invalid endpoint id", h)
  handle_update read_fault fault reread_fault now (some id) patch h =
      elim (get_endpoint read_fault id h.store) [
        | err e ↦ (write_error 404 "endpoint not found", h)
        | ok existing ↦ elim patch [
          | none ↦ (write_error 400 "invalid request body", h)
          | some fields ↦
              let merged = merge fields existing in
              if str_eq merged.target_url "" || str_eq merged.name ""
              then (write_error 400 "target_url and name cannot be empty", h)
              else finish_update now id
                  (update_endpoint fault reread_fault id merged.name merged.target_url
                    merged.transformer_script h.store)
                  h
        ]
      ]

  unfoldable pub finish_delete :
      Uuid
      → State × Result vahak.Store.Error.Error (Unit {0})
      → Handler storage
      → Reply × Handler storage
  finish_delete id (s, err e) h =
      (write_error 502 "failed to delete endpoint", record h { store = s })
  finish_delete id (s, ok u) h =
      (write_json 204 no_payload, record h { store = s; ep_cache = erase id h.ep_cache })

  -- DELETE /endpoints/{id}.
  unfoldable pub handle_delete :
      Option Cause → Option Uuid → Handler storage → Reply × Handler storage
  unfolding finish_delete
  handle_delete fault none h = (write_error 400 "invalid endpoint id", h)
  handle_delete fault (some id) h = finish_delete id (delete_endpoint fault id h.store) h

-- ===== src/Tests/Api.antt =====
-- The HTTP handlers and the live view at concrete inputs, over the SQLite engine.
use vahak.Prelude.{
  ℕ, ◌≡◌, ◌<◌, ◌-◌, ◌⊎◌, refl, String, true, false, Bool, none, some, Option, List, [], ◌∷◌, arith,
  lookup, insert, nat_eq, ◌||◌, ◌&&◌, not, ◌==◌,
}
use vahak.Models.{minute, Endpoint}
use vahak.Store.Error.{ok}
use vahak.Store.Sqlite.Implements.{sqlite_storage}
use vahak.Api.{Handler, CachedEndpoint, durable, endpoint_payload}
use vahak.Api.Live.{Hub, register, unregister}
use vahak.Api.Live.Watchers.{is_told, watchers_told}
use vahak.Api.Cache.{
  Lookup, EndpointPatch, find_endpoint, fetch_endpoint, handle_update, handle_delete,
}
use vahak.Api.Cache.Coherence.{find_endpoint_is_recent, update_is_seen, delete_is_seen}
use vahak.Api.Capture.{Webhook, Ingress, timed_out, capture_webhook}
use vahak.Api.Capture.Acks.{Outcome, capture_webhook-Outcome}
use vahak.Queue.{new_job_queue}
use vahak.Tests.Fixtures.{empty_json, sample_db, endpoint}

abbrev pub watched : Hub
watched = record { clients = (1, 7 ∷ []) ∷ [] }

abbrev pub handler : Handler (sqlite_storage empty_json)
handler = record {
  store = sample_db;
  hub = watched;
  queue = new_job_queue 2;
  ep_cache = (1, record { ep = endpoint; cached_at = 50 }) ∷ [];
  accepted = [];
  ack_mode = durable;
  result_pool = [];
  written = [];
}

abbrev pub lookup_at_60 : Lookup
lookup_at_60 = record { checked_at = 60; cached_at = 61; endpoint_fault = none }

abbrev pub webhook : Webhook
webhook = record {
  id = some 1;
  method = "POST";
  header_of = λ _. "";
  body = "hello";
  body_size = 5;
  body_fault = false;
  remote_addr = "10.0.0.3";
}

abbrev pub ingress : Ingress
ingress = record {
  lookup = lookup_at_60;
  request_id = 30;
  job_id = 31;
  received_at = 62;
  due_from = 62;
  created_at = 62;
  room = true;
  wait = timed_out;
  picked = some 0;
  fresh_channel = 4;
  verdict = some none;
  marshalled = some "{}";
  canonical = λ key. key;
}

capture_webhook-Outcome_example :
    let x = capture_webhook (sqlite_storage empty_json) ingress webhook handler in
    Outcome (sqlite_storage empty_json) ingress webhook handler x.1 x.0
capture_webhook-Outcome_example =
    capture_webhook-Outcome (sqlite_storage empty_json) ingress webhook handler

find_endpoint_is_recent_example :
    ((sqlite_storage empty_json).get_endpoint none 1 sample_db ≡ ok endpoint)
    ⊎ ((entry : CachedEndpoint) × (lookup 1 handler.ep_cache ≡ some entry)
        × (entry.ep ≡ endpoint)
        × (60 - entry.cached_at < minute))
unfolding find_endpoint lookup
find_endpoint_is_recent_example =
    find_endpoint_is_recent (sqlite_storage empty_json) lookup_at_60 1 handler endpoint refl

abbrev renamed : EndpointPatch
renamed = record { name = some "invoices"; target_url = none; transformer_script = none }

update_is_seen_example :
    let after =
      handle_update (sqlite_storage empty_json) none none none 55 (some 1) (some renamed) handler in
    (ep : Endpoint) × (after.0.payload ≡ endpoint_payload ep)
    × ((find_endpoint (sqlite_storage empty_json) lookup_at_60 1 after.1).0 ≡ some ep)
unfolding handle_update vahak.Store.Sqlite.get_endpoint vahak.Prelude.select
    vahak.Store.Sqlite.update_endpoint vahak.Store.Db.update_endpoints vahak.Prelude.update_where
update_is_seen_example =
    update_is_seen (sqlite_storage empty_json) none none none 55 1 (some renamed) handler
      lookup_at_60 refl (omega arith)

delete_is_seen_example :
    let after = handle_delete (sqlite_storage empty_json) none (some 1) handler in
    find_endpoint (sqlite_storage empty_json) lookup_at_60 1 after.1
    ≡ fetch_endpoint (sqlite_storage empty_json) lookup_at_60 1 after.1
unfolding handle_delete vahak.Store.Sqlite.delete_endpoint
delete_is_seen_example = delete_is_seen (sqlite_storage empty_json) none 1 handler lookup_at_60 refl

watchers_told_example :
    (is_told 1 8 "{}" (register 1 8 watched) ≡ (((1 == 1) && (8 == 8)) || is_told 1 8 "{}" watched))
    × (is_told 1 8 "{}" (unregister 1 8 watched)
        ≡ (not ((1 == 1) && (8 == 8)) && is_told 1 8 "{}" watched))
watchers_told_example = watchers_told 1 1 8 8 "{}" watched

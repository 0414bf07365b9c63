-- ===== src/Tests/Server.antt =====
-- The configuration and the server at concrete inputs.
use vahak.Prelude.{false, String, List, [], ◌∷◌, none, some, refl, ◌≡◌, str_eq, if◌then◌else◌}
use vahak.Config.{Config, load, pos, postgres}
use vahak.Store.Engine.{SameEndpoints}
use vahak.Store.Sqlite.Engine.{sqlite_engine}
use vahak.Store.Sqlite.Bulk.{no_faults}
use vahak.Server.{
  Drivers, no_change, HttpRequest, start, serve, serve_all, Happening, asks, flushes, captures,
  deletes, creates, unauthorized, new_handler,
}
use vahak.Server.Access.{public, keyless, strangers_change_nothing}
use vahak.Api.Live.{new_hub}
use vahak.Store.Sqlite.Implements.{sqlite_storage}
use vahak.Tests.Fixtures.{empty_json, sample_db}
use vahak.Tests.Api.{webhook, ingress}

abbrev getenv : String → String
getenv name =
    if str_eq name "API_KEY"
    then "secret"
    else if str_eq name "DB_URL"
    then "postgresql://db"
    else ""

abbrev cfg : Config
cfg = load (λ _. none) getenv

-- The engine follows the URL, and the retention is seven days.
load_run : (cfg.db_engine ≡ postgres) × (cfg.retention_days ≡ pos 7)
unfolding load
load_run = (refl, refl)

abbrev drivers : Drivers
drivers = record {
  sqlite_driver = record { sql_open = λ _. none; ping = none; init_schema = none };
  pool_driver = record { parse_config = λ _. none; new_with_config = none; ping = none };
  migrations = record { fails_to_init = false; up = some no_change };
  upper = λ text. text;
  inherited = "";
}

abbrev keyless_delete : HttpRequest
keyless_delete = record { x_api_key = ""; route = deletes none (some 1) }

abbrev captured_hook : HttpRequest
captured_hook = record { x_api_key = ""; route = captures ingress webhook }

abbrev visits : List (Happening (sqlite_engine empty_json))
visits = asks captured_hook ∷ flushes no_faults [] ∷ asks keyless_delete ∷ []

strangers_change_nothing_example :
    let g =
      serve_all
        (sqlite_engine empty_json)
        cfg
        visits
        (new_handler (sqlite_storage empty_json) cfg.ack_mode sample_db) in
    SameEndpoints (sqlite_storage empty_json) sample_db g.store
    × (g.hub ≡ new_hub)
    × (serve (sqlite_storage empty_json) cfg keyless_delete g ≡ (some unauthorized, g))
unfolding start load vahak.Server.is_protected
strangers_change_nothing_example =
    strangers_change_nothing (sqlite_engine empty_json) cfg drivers sample_db visits keyless_delete
      refl (public refl, (tt, (keyless refl, tt))) (keyless refl) refl

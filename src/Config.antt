-- ===== src/Config.antt =====
-- config/config.go: Load. `getenv` is os.Getenv once godotenv has read its file, and `atoi` is
-- strconv.Atoi, with none for an error.
use vahak.Prelude.{ℕ, String, Bool, ◌||◌, Option, none, some, str_eq, if◌then◌else◌}
use text.Mathlib.Text.{starts_with}
use vahak.Api.{AckMode, fast, durable}

pub data ℤ : Type 0 where
  pos negsuc : ℕ → ℤ

pub data Engine : Type 0 where
  sqlite postgres : Engine

pub record Config : Type 0 where
  pub ack_mode : AckMode
  pub db_engine : Engine
  pub db_path : String
  pub db_url : String
  pub db_pool_url : String
  pub port : String
  pub api_key : String
  pub allow_local_targets : Bool
  pub allow_insecure_key : Bool
  pub retention_days : ℤ
  pub sqlite_synchronous : String

-- A setting that is empty gets its default.
abbrev pub or_default : String → String → String
or_default value default = if str_eq value "" then default else value

-- ACK_MODE.
abbrev pub ack_mode_of : String → AckMode
ack_mode_of mode = if str_eq mode "fast" then fast else durable

-- DB_ENGINE, and for another name than the two the scheme of DB_URL.
unfoldable pub engine_of : String → String → Engine
engine_of engine url =
    if str_eq engine "postgres"
    then postgres
    else if str_eq engine "sqlite"
    then sqlite
    else if starts_with url "postgres" || starts_with url "postgresql"
    then postgres
    else sqlite

-- RETENTION_DAYS; what is not a number counts as unset.
unfoldable pub retention_of : (String → Option ℤ) → String → ℤ
retention_of atoi days =
    if str_eq days "" then pos 7 else elim (atoi days) [ none ↦ pos 7 | some n ↦ n ]

unfoldable pub load : (String → Option ℤ) → (String → String) → Config
unfolding engine_of retention_of
load atoi getenv = record {
  ack_mode = ack_mode_of (getenv "ACK_MODE");
  db_engine = engine_of (getenv "DB_ENGINE") (getenv "DB_URL");
  db_path = or_default (getenv "DB_PATH") "vahak.db";
  db_url = getenv "DB_URL";
  db_pool_url = or_default (getenv "DB_POOL_URL") (getenv "DB_URL");
  port = or_default (getenv "PORT") "8080";
  api_key = getenv "API_KEY";
  allow_local_targets = str_eq (getenv "ALLOW_LOCAL_TARGETS") "true";
  allow_insecure_key = str_eq (getenv "ALLOW_INSECURE_DEFAULT_KEY") "true";
  retention_days = retention_of atoi (getenv "RETENTION_DAYS");
  sqlite_synchronous = or_default (getenv "SQLITE_SYNCHRONOUS") "NORMAL";
}

-- ===== src/Store/Opening.antt =====
-- How the two engines are opened: NewSQLite and NewSQLiteWithSync of internal/store/sqlite.go, and
-- NewPool of internal/store/db.go. What the drivers answer is an argument.
use vahak.Prelude.{ℕ, ◌*◌, String, not, ◌&&◌, Bool, true, Option, str_eq, if◌then◌else◌}
use Prim.Native.String.{◌++◌}
use vahak.Models.{Time, minute}
use vahak.Store.Error.{Cause, Error, Result, ok, ◌>>=◌, wrap, exec}

-- sql.Open of a data source name, Ping, and the Exec of initSchema.
pub record SqliteDriver : Type 0 where
  pub sql_open : String → Option Cause
  pub ping : Option Cause
  pub init_schema : Option Cause

-- What the handle is set to.
pub record SqliteOptions : Type 0 where
  pub dsn : String
  pub max_open_conns : ℕ
  pub max_idle_conns : ℕ
  pub conn_max_lifetime : Time

-- The synchronous mode that NewSQLiteWithSync puts in the data source name; `upper` is
-- strings.ToUpper, and `inherited` the variable SQLITE_SYNCHRONOUS.
unfoldable pub sync_mode : (String → String) → String → String → String
sync_mode upper inherited mode =
    let asked = if str_eq mode "" then inherited else mode in
    let named = upper (if str_eq asked "" then "NORMAL" else asked) in
    if not (str_eq named "NORMAL") && (not (str_eq named "FULL") && not (str_eq named "OFF"))
    then "NORMAL"
    else named

abbrev pub data_source : String → String → String
data_source db_path mode =
    db_path ++ "?_pragma=busy_timeout(5000)&_pragma=journal_mode(WAL)&_pragma=synchronous(" ++ mode
    ++ ")&_pragma=wal_autocheckpoint(10000)&_pragma=foreign_keys(ON)"
    ++ "&_pragma=cache_size(-64000)&_pragma=temp_store(MEMORY)&_pragma=mmap_size(268435456)"

unfoldable pub new_sqlite_with_sync :
    (String → String) → String → SqliteDriver → String → String → Result Error SqliteOptions
unfolding sync_mode
new_sqlite_with_sync upper inherited driver db_path mode =
    let path = if str_eq db_path "" then "vahak.db" else db_path in
    let dsn = data_source path (sync_mode upper inherited mode) in
    let handle : SqliteOptions = record {
      dsn = dsn;
      max_open_conns = 50;
      max_idle_conns = 50;
      conn_max_lifetime = 60 * minute;
    } in
    wrap "failed to open sqlite database" (exec (driver.sql_open dsn) (ok handle))
    >>= (λ h. wrap "failed to ping sqlite database" (exec driver.ping (ok h)))
    >>= (λ h. wrap "failed to init sqlite schema" (exec driver.init_schema (ok h)))

unfoldable pub new_sqlite :
    (String → String) → String → SqliteDriver → String → Result Error SqliteOptions
unfolding new_sqlite_with_sync
new_sqlite upper inherited driver db_path = new_sqlite_with_sync upper inherited driver db_path ""

-- pgxpool's ParseConfig, NewWithConfig and Ping.
pub record PoolDriver : Type 0 where
  pub parse_config : String → Option Cause
  pub new_with_config : Option Cause
  pub ping : Option Cause

pub record PoolConfig : Type 0 where
  pub simple_protocol : Bool
  pub max_conns : ℕ

unfoldable pub new_pool : PoolDriver → String → Result Error PoolConfig
new_pool driver url =
    wrap "failed to parse db config"
      (exec (driver.parse_config url) (ok (record { simple_protocol = true; max_conns = 200 })))
    >>= (λ c. wrap "failed to create pool" (exec driver.new_with_config (ok c)))
    >>= (λ c. wrap "failed to ping db" (exec driver.ping (ok c)))

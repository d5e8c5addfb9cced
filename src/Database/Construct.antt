-- ===== src/Database/Construct.antt =====
-- `NewDatabase` of database.go: the defaults, the configuration of the pool, the attempts to connect;
-- and the tables of pgx levels with the logger that pgx is given.
use kit_legacy.Base.{
  ℕ, ℤ, pos, ◌*◌, String, ◌&◌, show, show_ℤ, int32, ◌⊎◌, inl, inr, Option, none, some, or_default,
  List, ◌∷◌, if◌then◌else◌,
}
use kit_legacy.Errors.Value.{GoError, ErrorsLib}
use kit_legacy.Errors.Error.{to_error, wrap, wrap_as}
use kit_legacy.Errors.Builtin.{err_database_generic, err_database_timed_out}
use kit_legacy.World.Event.{Event, World}
use kit_legacy.World.Action.{Action, Fallible, pure, emit, ask, unless_err, ◌>>=◌, ◌>>◌}
use kit_legacy.World.Context.{Context}
use kit_legacy.Utils.Deadline.{DeadlineLib}
use kit_legacy.Utils.Retry.{RetrierLib}
use kit_legacy.Observe.Level.{
  lvl_trace, lvl_debug, lvl_info, lvl_warn, lvl_error, lvl_none, same_level,
}
use kit_legacy.Observe.Observer.{Observer, infof, with_levelf}
use kit_legacy.Connect.{RetryConfig, retry_or_default, Built, announced, built, connect}
use kit_legacy.Database.Store.{DatabaseConfig, Database}

-- `DatabaseConfig` as the caller gives it; a nil pointer is none.
pub record DatabaseOptions : Type 0 where
  pub database_host : String
  pub database_port : ℤ
  pub database_ssl_mode : String
  pub database_user : String
  pub database_password : String
  pub database_name : String
  pub app_name : String
  pub database_min_conns : Option ℤ
  pub database_max_conns : Option ℤ
  pub database_max_conn_idle_time : Option ℤ
  pub database_max_conn_life_time : Option ℤ

abbrev minute : ℕ
minute = 60000000000

-- `procs` is what `runtime.GOMAXPROCS(-1)` gives.
abbrev default_min_conns : ℤ
default_min_conns = pos 1

abbrev default_max_conns : ℕ → ℤ
default_max_conns procs = pos (1 * procs)

abbrev default_max_conn_idle_time : ℤ
default_max_conn_idle_time = pos (30 * minute)

abbrev default_max_conn_life_time : ℤ
default_max_conn_life_time = pos (60 * minute)

unfoldable pub with_defaults : ℕ → DatabaseOptions → DatabaseConfig
with_defaults procs given = record {
  database_host = given.database_host;
  database_port = given.database_port;
  database_ssl_mode = given.database_ssl_mode;
  database_user = given.database_user;
  database_password = given.database_password;
  database_name = given.database_name;
  app_name = given.app_name;
  database_min_conns = or_default given.database_min_conns default_min_conns;
  database_max_conns = or_default given.database_max_conns (default_max_conns procs);
  database_max_conn_idle_time =
      or_default given.database_max_conn_idle_time default_max_conn_idle_time;
  database_max_conn_life_time =
      or_default given.database_max_conn_life_time default_max_conn_life_time;
}

unfoldable pub data_source : DatabaseConfig → String
data_source config =
    "postgresql://"
    & config.database_user
    & ":"
    & config.database_password
    & "@"
    & config.database_host
    & ":"
    & show_ℤ config.database_port
    & "/"
    & config.database_name
    & "?sslmode="
    & config.database_ssl_mode

-- pgx.LogLevel; a lookup that misses gives the zero value, which is no level.
pub data PgxLevel : Type 0 where
  trace debug info warn error silent zero_value : PgxLevel

unfoldable pub k_level_to_p_level : ℤ → PgxLevel
k_level_to_p_level l =
    if same_level l lvl_trace
    then PgxLevel.trace
    else if same_level l lvl_debug
    then PgxLevel.debug
    else if same_level l lvl_info
    then PgxLevel.info
    else if same_level l lvl_warn
    then PgxLevel.warn
    else if same_level l lvl_error
    then PgxLevel.error
    else if same_level l lvl_none
    then PgxLevel.silent
    else PgxLevel.zero_value

unfoldable pub p_level_to_k_level : PgxLevel → ℤ
p_level_to_k_level PgxLevel.trace = lvl_trace
p_level_to_k_level PgxLevel.debug = lvl_debug
p_level_to_k_level PgxLevel.info = lvl_info
p_level_to_k_level PgxLevel.warn = lvl_warn
p_level_to_k_level PgxLevel.error = lvl_error
p_level_to_k_level PgxLevel.silent = lvl_none
p_level_to_k_level PgxLevel.zero_value = pos 0

-- `if pgxLogLevel >= pgx.LogLevelInfo`: pgx has its levels in reverse.
unfoldable pub capped : PgxLevel → PgxLevel
capped PgxLevel.trace = PgxLevel.error
capped PgxLevel.debug = PgxLevel.error
capped PgxLevel.info = PgxLevel.error
capped level = level

-- pgxpool.Config, as far as it is set.
pub record PoolConfig : Type 0 where
  pub min_conns : ℤ
  pub max_conns : ℤ
  pub max_conn_idle_time : ℤ
  pub max_conn_lifetime : ℤ
  pub runtime_params : List (String × String)
  pub log_level : PgxLevel

-- github.com/jackc/pgx/v4/pgxpool: the runtime parameters of a parsed configuration or the error; the
-- replies to a connection and a ping.
pub record PoolEnv (F : Type 0) : Type 0 where
  pub parse_config : String → GoError F ⊎ List (String × String)
  pub connect_config : PoolConfig → World F → Option (GoError F)
  pub ping : World F → Option (GoError F)

-- The newest setting of a key comes first.
unfoldable pub pool_config : Observer → DatabaseConfig → List (String × String) → PoolConfig
pool_config observer config params = record {
  min_conns = int32 config.database_min_conns;
  max_conns = int32 config.database_max_conns;
  max_conn_idle_time = config.database_max_conn_idle_time;
  max_conn_lifetime = config.database_max_conn_life_time;
  runtime_params =
      ("application_name", config.app_name) ∷ ("standard_conforming_strings", "on") ∷ params;
  log_level = capped (k_level_to_p_level observer.logger.level);
}

module _ {F : Type 0} ⦃lib : ErrorsLib F⦄ where
  -- `_pgxLogger.Log`; `fields` is how the data of the message print.
  unfoldable pub pgx_log : Observer → PgxLevel → String → String → Action F (Unit {0})
  pgx_log observer level msg fields =
      with_levelf observer (p_level_to_k_level level) (msg & ": " & fields)

  unfoldable pub connect_error : GoError F → Option (GoError F)
  connect_error err = some (to_error (wrap_as err_database_generic (some err)))

  -- One attempt: a pool is made, and pinged.
  unfoldable pub open_pool : PoolEnv F → PoolConfig → Fallible F
  open_pool env config = do
    err ← ask (env.connect_config config) (Event.opened "pool")
    unless_err err connect_error
        do pinged ← ask env.ping Event.pinged; unless_err pinged connect_error (pure none)

  unfoldable pub announce : Observer → DatabaseConfig → RetryConfig → ℕ → Action F (Unit {0})
  announce observer config retry attempt = infof observer (
      "Trying to connect to the "
      & config.database_name
      & " database "
      & show attempt
      & "/"
      & show_ℤ retry.attempts)

  unfoldable pub finish : Observer → DatabaseConfig → Action F Database
  finish observer config = do
    infof observer ("Connected to the " & config.database_name & " database")
    emit (Event.configured "sqlf dialect")
    pure (record { config = config; observer = observer })

module _ {F : Type 0} ⦃lib : ErrorsLib F⦄ ⦃timer : DeadlineLib F⦄ ⦃retrier : RetrierLib F⦄
    (env : PoolEnv F) (ctx : Context F) (observer : Observer) where
  unfoldable pub from_parsed :
      DatabaseConfig
      → RetryConfig
      → GoError F ⊎ List (String × String)
      → Action F (Built F Database)
  from_parsed config retry (inl err) = pure (inl (to_error (wrap err_database_generic (some err))))
  from_parsed config retry (inr params) = do
    err ← connect ctx retry err_database_timed_out err_database_generic (
        announced (announce observer config retry)
          (open_pool env (pool_config observer config params)))
    built err (finish observer config)

  unfoldable pub new_database :
      ℕ → DatabaseOptions → Option RetryConfig → Action F (Built F Database)
  new_database procs given retry =
      let config = with_defaults procs given in
      from_parsed config (retry_or_default retry) (env.parse_config (data_source config))

-- ===== src/Services/Construct.antt =====
-- The constructors of enqueuer.go, worker.go and server.go: the defaults, and what asynq and echo are
-- given.
use kit_legacy.Base.{
  ℕ, ℤ, pos, ◌*◌, String, ◌&◌, show_ℤ, codes, after_prefix, same_text, Bool, true, false, Option,
  or_default, is_some, List, [], ◌∷◌, if◌then◌else◌,
}
use kit_legacy.Observe.Level.{
  lvl_trace, lvl_debug, lvl_info, lvl_warn, lvl_error, lvl_none, same_level,
}
use kit_legacy.Observe.Observer.{Observer}
use kit_legacy.ExceptionHandler.{env_development}
use kit_legacy.Utils.ByteSize.{byte_size}

-- The part of `EnqueuerConfig` and of `WorkerConfig` that is about the cache; a nil pointer is none.
pub record QueueOptions : Type 0 where
  pub cache_host : String
  pub cache_port : ℤ
  pub cache_ssl_mode : Bool
  pub cache_password : String
  pub cache_max_conns : Option ℤ
  pub cache_read_timeout : Option ℤ
  pub cache_write_timeout : Option ℤ
  pub cache_dial_timeout : Option ℤ

-- asynq.RedisClientOpt; `tls` says whether there is a TLS configuration, of version 1.2 at least.
pub record RedisClientOpt : Type 0 where
  pub addr : String
  pub tls : Bool
  pub password : String
  pub dial_timeout : ℤ
  pub read_timeout : ℤ
  pub write_timeout : ℤ
  pub pool_size : ℤ

abbrev second : ℕ
second = 1000000000

abbrev default_max_conns : ℕ → ℤ
default_max_conns procs = pos (10 * procs)

abbrev default_read_timeout : ℤ
default_read_timeout = pos (30 * second)

abbrev default_write_timeout : ℤ
default_write_timeout = pos (30 * second)

abbrev default_dial_timeout : ℤ
default_dial_timeout = pos (30 * second)

abbrev default_concurrency : ℕ → ℤ
default_concurrency procs = pos (1 * procs)

abbrev default_strict_priority : Bool
default_strict_priority = false

abbrev default_stop_timeout : ℤ
default_stop_timeout = pos (30 * second)

abbrev default_time_zone : String
default_time_zone = "UTC"

abbrev default_request_header_max_size : ℤ
default_request_header_max_size = pos 1024

abbrev default_request_body_max_size : ℤ
default_request_body_max_size = pos 4096

abbrev default_request_file_max_size : ℤ
default_request_file_max_size = pos 2097152

abbrev default_request_keep_alive_timeout : ℤ
default_request_keep_alive_timeout = pos (30 * second)

abbrev default_request_read_timeout : ℤ
default_request_read_timeout = pos (30 * second)

abbrev default_request_read_header_timeout : ℤ
default_request_read_header_timeout = pos (30 * second)

abbrev default_response_write_timeout : ℤ
default_response_write_timeout = pos (30 * second)

-- `procs` is what `runtime.GOMAXPROCS(-1)` gives.
unfoldable pub redis_config : ℕ → QueueOptions → RedisClientOpt
redis_config procs given = record {
  addr = given.cache_host & ":" & show_ℤ given.cache_port;
  tls = given.cache_ssl_mode;
  password = given.cache_password;
  dial_timeout = or_default given.cache_dial_timeout default_dial_timeout;
  read_timeout = or_default given.cache_read_timeout default_read_timeout;
  write_timeout = or_default given.cache_write_timeout default_write_timeout;
  pool_size = or_default given.cache_max_conns (default_max_conns procs);
}

pub record Enqueuer : Type 0 where
  pub observer : Observer
  pub client : RedisClientOpt

unfoldable pub new_enqueuer : ℕ → Observer → QueueOptions → Enqueuer
new_enqueuer procs observer given = record {
  observer = observer;
  client = redis_config procs given;
}

-- asynq.LogLevel; a lookup that misses gives the zero value, which comes before the others.
pub data AsynqLevel : Type 0 where
  zero_value debug info warn error fatal : AsynqLevel

unfoldable pub k_level_to_a_level : ℤ → AsynqLevel
k_level_to_a_level l =
    if same_level l lvl_trace
    then AsynqLevel.debug
    else if same_level l lvl_debug
    then AsynqLevel.debug
    else if same_level l lvl_info
    then AsynqLevel.info
    else if same_level l lvl_warn
    then AsynqLevel.warn
    else if same_level l lvl_error
    then AsynqLevel.error
    else if same_level l lvl_none
    then AsynqLevel.fatal
    else AsynqLevel.zero_value

-- `if asynqLogLevel <= asynq.DebugLevel`
unfoldable pub raised : AsynqLevel → AsynqLevel
raised AsynqLevel.zero_value = AsynqLevel.info
raised AsynqLevel.debug = AsynqLevel.info
raised level = level

-- The part of `WorkerConfig` that is about the worker.
pub record WorkerOptions : Type 0 where
  pub queues : List (String × ℤ)
  pub concurrency : Option ℤ
  pub strict_priority : Option Bool
  pub stop_timeout : Option ℤ
  pub time_zone : Option String

-- asynq.Config and asynq.SchedulerOpts, as far as they are set
pub record WorkerSettings : Type 0 where
  pub concurrency : ℤ
  pub queues : List (String × ℤ)
  pub strict_priority : Bool
  pub shutdown_timeout : ℤ
  pub location : String
  pub log_level : AsynqLevel

unfoldable pub worker_settings : ℕ → Observer → WorkerOptions → WorkerSettings
worker_settings procs observer given = record {
  concurrency = or_default given.concurrency (default_concurrency procs);
  queues = given.queues;
  strict_priority = or_default given.strict_priority default_strict_priority;
  shutdown_timeout = or_default given.stop_timeout default_stop_timeout;
  location = or_default given.time_zone default_time_zone;
  log_level = raised (k_level_to_a_level observer.logger.level);
}

pub record Worker : Type 0 where
  pub observer : Observer
  pub redis : RedisClientOpt
  pub settings : WorkerSettings

unfoldable pub new_worker : ℕ → Observer → QueueOptions → WorkerOptions → Worker
new_worker procs observer cache given = record {
  observer = observer;
  redis = redis_config procs cache;
  settings = worker_settings procs observer given;
}

-- `E` is the type of an IP extractor.
pub record ServerOptions (E : Type 0) : Type 0 where
  pub environment : String
  pub app_port : ℤ
  pub request_header_max_size : Option ℤ
  pub request_body_max_size : Option ℤ
  pub request_file_max_size : Option ℤ
  pub request_keep_alive_timeout : Option ℤ
  pub request_read_timeout : Option ℤ
  pub request_read_header_timeout : Option ℤ
  pub request_ip_extractor : Option E
  pub response_write_timeout : Option ℤ

-- echo's `BodyLimit`: the requests that it skips, by their URI, and the limit, none where making it
-- panics.
pub record BodyLimit : Type 0 where
  pub skipped : String → Bool
  pub limit : Option String

-- echo.Echo and its http.Server, as far as they are set; the limits are tested in their order.
pub record ServerSettings (E : Type 0) : Type 0 where
  pub hide_banner : Bool
  pub hide_port : Bool
  pub disable_http2 : Bool
  pub debug : Bool
  pub max_header_bytes : ℤ
  pub idle_timeout : ℤ
  pub read_header_timeout : ℤ
  pub read_timeout : ℤ
  pub write_timeout : ℤ
  pub ip_extractor : E
  pub body_limits : List BodyLimit

-- `strings.HasPrefix`
unfoldable pub has_prefix : String → String → Bool
has_prefix s prefix = is_some (after_prefix (codes prefix) (codes s))

-- The hook in front of all handlers: `ctx.Request().RemoteAddr = ctx.RealIP()`, on the address.
unfoldable pub remote_addr : {E : Type 0} → (E → String) → ServerSettings E → String
remote_addr extract settings = extract settings.ip_extractor

-- `real_ip` is echo's extractor `ExtractIPFromRealIPHeader()`. The serializer, the binder, the renderer and
-- the exception handler are handed to echo as they are.
unfoldable pub new_server : {E : Type 0} → E → ServerOptions E → ServerSettings E
new_server real_ip given = record {
  hide_banner = true;
  hide_port = true;
  disable_http2 = true;
  debug = same_text given.environment env_development;
  max_header_bytes = or_default given.request_header_max_size default_request_header_max_size;
  idle_timeout = or_default given.request_keep_alive_timeout default_request_keep_alive_timeout;
  read_header_timeout =
      or_default given.request_read_header_timeout default_request_read_header_timeout;
  read_timeout = or_default given.request_read_timeout default_request_read_timeout;
  write_timeout = or_default given.response_write_timeout default_response_write_timeout;
  ip_extractor = or_default given.request_ip_extractor real_ip;
  body_limits =
      record {
        skipped = λ uri. has_prefix uri "/file";
        limit = byte_size (or_default given.request_body_max_size default_request_body_max_size);
      }
      ∷ record {
        skipped = λ uri. false;
        limit = byte_size (or_default given.request_file_max_size default_request_file_max_size);
      }
      ∷ [];
}

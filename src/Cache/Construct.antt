-- ===== src/Cache/Construct.antt =====
-- `NewCache` of cache.go: the defaults, the options of the client, the attempts to connect; and the
-- logger that go-redis is given.
use kit_legacy.Base.{
  ℕ, ℤ, pos, ◌*◌, String, ◌&◌, show, show_ℤ, Bool, Option, none, some, or_default, [], ◌∷◌,
}
use kit_legacy.Errors.Value.{GoError, ErrorsLib}
use kit_legacy.Errors.Error.{to_error, wrap_as}
use kit_legacy.Errors.Builtin.{err_cache_generic, err_cache_timed_out}
use kit_legacy.World.Event.{a_string, Event, World}
use kit_legacy.World.Action.{Action, Fallible, pure, emit, ask, unless_err, ◌>>=◌, ◌>>◌}
use kit_legacy.World.Context.{Context}
use kit_legacy.Utils.Deadline.{DeadlineLib}
use kit_legacy.Utils.Retry.{RetrierLib}
use kit_legacy.Observe.Observer.{Observer, info, infof}
use kit_legacy.Connect.{RetryConfig, retry_or_default, Built, announced, built, connect}
use kit_legacy.Cache.{CacheConfig, Cache}

-- `CacheConfig` as the caller gives it; a nil pointer is none.
pub record CacheOptions : Type 0 where
  pub cache_host : String
  pub cache_port : ℤ
  pub cache_ssl_mode : Bool
  pub cache_password : String
  pub cache_min_conns : Option ℤ
  pub cache_max_conns : Option ℤ
  pub cache_max_conn_idle_time : Option ℤ
  pub cache_max_conn_life_time : Option ℤ
  pub cache_read_timeout : Option ℤ
  pub cache_write_timeout : Option ℤ
  pub cache_dial_timeout : Option ℤ
  pub cache_acquire_timeout : Option ℤ
  pub cache_local_config : Option (ℤ × ℤ)

abbrev second : ℕ
second = 1000000000

abbrev default_min_conns : ℤ
default_min_conns = pos 1

abbrev default_max_conns : ℕ → ℤ
default_max_conns procs = pos (10 * procs)

abbrev default_max_conn_idle_time : ℤ
default_max_conn_idle_time = pos (1800 * second)

abbrev default_max_conn_life_time : ℤ
default_max_conn_life_time = pos (3600 * second)

abbrev default_read_timeout : ℤ
default_read_timeout = pos (30 * second)

abbrev default_write_timeout : ℤ
default_write_timeout = pos (30 * second)

abbrev default_dial_timeout : ℤ
default_dial_timeout = pos (30 * second)

abbrev default_acquire_timeout : ℤ
default_acquire_timeout = pos (30 * second)

-- `procs` is what `runtime.GOMAXPROCS(-1)` gives.
unfoldable pub with_defaults : ℕ → CacheOptions → CacheConfig
with_defaults procs given = record {
  cache_host = given.cache_host;
  cache_port = given.cache_port;
  cache_ssl_mode = given.cache_ssl_mode;
  cache_password = given.cache_password;
  cache_min_conns = or_default given.cache_min_conns default_min_conns;
  cache_max_conns = or_default given.cache_max_conns (default_max_conns procs);
  cache_max_conn_idle_time = or_default given.cache_max_conn_idle_time default_max_conn_idle_time;
  cache_max_conn_life_time = or_default given.cache_max_conn_life_time default_max_conn_life_time;
  cache_read_timeout = or_default given.cache_read_timeout default_read_timeout;
  cache_write_timeout = or_default given.cache_write_timeout default_write_timeout;
  cache_dial_timeout = or_default given.cache_dial_timeout default_dial_timeout;
  cache_acquire_timeout = or_default given.cache_acquire_timeout default_acquire_timeout;
  cache_local_config = given.cache_local_config;
}

-- redis.Options, as far as they are set; `tls` says whether there is a TLS configuration, of version
-- 1.2 at least.
pub record ClientOptions : Type 0 where
  pub addr : String
  pub tls : Bool
  pub password : String
  pub min_idle_conns : ℤ
  pub pool_size : ℤ
  pub idle_timeout : ℤ
  pub max_conn_age : ℤ
  pub read_timeout : ℤ
  pub write_timeout : ℤ
  pub dial_timeout : ℤ
  pub pool_timeout : ℤ

unfoldable pub client_options : CacheConfig → ClientOptions
client_options config = record {
  addr = config.cache_host & ":" & show_ℤ config.cache_port;
  tls = config.cache_ssl_mode;
  password = config.cache_password;
  min_idle_conns = config.cache_min_conns;
  pool_size = config.cache_max_conns;
  idle_timeout = config.cache_max_conn_idle_time;
  max_conn_age = config.cache_max_conn_life_time;
  read_timeout = config.cache_read_timeout;
  write_timeout = config.cache_write_timeout;
  dial_timeout = config.cache_dial_timeout;
  pool_timeout = config.cache_acquire_timeout;
}

module _ {F : Type 0} ⦃lib : ErrorsLib F⦄ where
  -- `_redisLogger.Printf`, on the formatted text
  unfoldable pub redis_printf : Observer → String → Action F (Unit {0})
  redis_printf observer text = infof observer text

  -- One attempt: a client is made, and pinged with the options. `ping` is the reply.
  unfoldable pub open_client :
      (ClientOptions → World F → Option (GoError F)) → ClientOptions → Fallible F
  open_client ping options = do
    emit (Event.opened "client" none)
    err ← ask (ping options) Event.pinged
    unless_err err (λ e. some (to_error (wrap_as err_cache_generic (some e)))) (pure none)

  unfoldable pub announce : Observer → RetryConfig → ℕ → Action F (Unit {0})
  announce observer retry attempt =
      infof observer
        ("Trying to connect to the cache " & show attempt & "/" & show_ℤ retry.attempts)

  unfoldable pub finish : Observer → CacheConfig → Action F Cache
  finish observer config = do
    info observer (a_string "Connected to the cache" ∷ [])
    pure (record { config = config; observer = observer })

module _ {F : Type 0} ⦃lib : ErrorsLib F⦄ ⦃timer : DeadlineLib F⦄ ⦃retrier : RetrierLib F⦄ where
  unfoldable pub new_cache :
      (ClientOptions → World F → Option (GoError F))
      → Context F
      → Observer
      → ℕ
      → CacheOptions
      → Option RetryConfig
      → Action F (Built F Cache)
  new_cache ping ctx observer procs given retry =
      let config = with_defaults procs given in
      let retry' = retry_or_default retry in
      do
        emit (Event.configured "redis logger")
        err ←
            connect ctx retry' err_cache_timed_out err_cache_generic
              (announced (announce observer retry') (open_client ping (client_options config)))
        built err (finish observer config)

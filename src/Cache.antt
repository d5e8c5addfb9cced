-- ===== src/Cache.antt =====
-- cache.go: the `Cache` component, over go-redis. The value that is stored or read is not modelled:
-- the library encodes it. `Health` is about the method of that name, and `Construct` is `NewCache`.
pub mod Laws
pub mod Health
pub mod Construct
use kit_legacy.Base.{
  ℕ, ℤ, pos, String, ◌&◌, show, show_ℤ, uint32, ltb, same_text, Bool, not, ◌||◌, Option, none, some,
  List, [], ◌∷◌, if◌then◌else◌, or_default, is_some,
}
use kit_legacy.Errors.Value.{GoError, ErrorsLib, is_sentinel}
use kit_legacy.Errors.Error.{Error, to_error, wrap_as, wrap_with_depth, withf}
use kit_legacy.Errors.Builtin.{
  err_cache_generic, err_cache_timed_out, err_cache_unhealthy, err_cache_miss,
}
use kit_legacy.World.Event.{Any, a_string, Event, World}
use kit_legacy.World.Action.{
  Outcome, returned, panicked, exited, Action, Fallible, pure, ask, look, unless_err, ◌>>=◌, ◌>>◌,
}
use kit_legacy.World.Context.{Context}
use kit_legacy.Utils.Deadline.{DeadlineLib, bounded}
use kit_legacy.Observe.Observer.{Observer, info}

-- The configuration as `NewCache` leaves it, with the defaults filled in; durations are in
-- nanoseconds.
pub record CacheConfig : Type 0 where
  pub cache_host : String
  pub cache_port : ℤ
  pub cache_ssl_mode : Bool
  pub cache_password : String
  pub cache_min_conns : ℤ
  pub cache_max_conns : ℤ
  pub cache_max_conn_idle_time : ℤ
  pub cache_max_conn_life_time : ℤ
  pub cache_read_timeout : ℤ
  pub cache_write_timeout : ℤ
  pub cache_dial_timeout : ℤ
  pub cache_acquire_timeout : ℤ
  -- the size and the time to live of the local cache
  pub cache_local_config : Option (ℤ × ℤ)

pub record Cache : Type 0 where
  pub config : CacheConfig
  pub observer : Observer

-- github.com/go-redis/redis and github.com/go-redis/cache: the replies, and the value of
-- `cache.ErrCacheMiss`. A duration is in nanoseconds.
pub record RedisEnv (F : Type 0) : Type 0 where
  pub total_conns : World F → ℕ
  pub ping : World F → String × Option (GoError F)
  pub set : String → World F → Option (GoError F)
  pub get : String → World F → Option (GoError F)
  pub delete : String → World F → Option (GoError F)
  pub close_pool : World F → Option (GoError F)
  pub err_cache_miss : F

module _ {F : Type 0} ⦃lib : ErrorsLib F⦄ (env : RedisEnv F) where
  -- `_chErrToError`, for an error that is not nil.
  unfoldable pub ch_err_to_error : GoError F → Error F
  ch_err_to_error err =
      if is_sentinel env.err_cache_miss err
      then wrap_with_depth err_cache_miss 1 (some err)
      else wrap_with_depth err_cache_generic 1 (some err)

  ch_error : Option (GoError F) → Fallible F
  ch_error err = unless_err err (λ e. some (to_error (ch_err_to_error e))) (pure none)

  unfoldable pub set : String → Option ℤ → Fallible F
  unfolding ch_error
  set key ttl = do
    err ← ask (env.set key) (Event.cache_set key (or_default ttl (pos 0)))
    ch_error err

  unfoldable pub get : String → Fallible F
  unfolding ch_error
  get key = do err ← ask (env.get key) (Event.cache_got key); ch_error err

  unfoldable pub delete : String → Fallible F
  unfolding ch_error
  delete key = do err ← ask (env.delete key) (Event.cache_deleted key); ch_error err

module _ {F : Type 0} ⦃lib : ErrorsLib F⦄ ⦃timer : DeadlineLib F⦄ (self : Cache)
    (env : RedisEnv F) where
  too_few_conns : ℕ → Option (GoError F)
  too_few_conns current = some (
      to_error (
        withf err_cache_unhealthy (
          "current conns "
          & show current
          & " below minimum "
          & show_ℤ self.config.cache_min_conns)))

  unhealthy : Option (GoError F) → Option (GoError F)
  unhealthy err = some (to_error (wrap_as err_cache_unhealthy err))

  ping_work : Context F → Fallible F
  ping_work ctx = do
    reply ← ask env.ping (λ (r : String × Option (GoError F)). Event.pinged r.1)
    if is_some reply.1 || not (same_text reply.0 "PONG")
        then pure (unhealthy reply.1)
        else (do done ← look ctx.err; unless_err done (λ e. unhealthy (some e)) (pure none))

  unfoldable pub health_work : Context F → Fallible F
  unfolding too_few_conns unhealthy ping_work
  health_work ctx = do
    current ← look env.total_conns
    if ltb current (uint32 self.config.cache_min_conns)
        then pure (too_few_conns current)
        else ping_work ctx

  unfoldable pub health : Context F → Fallible F
  health ctx = bounded ctx err_cache_timed_out err_cache_generic (health_work ctx)

  close_work : Fallible F
  close_work = do
    info self.observer (a_string "Closing cache" ∷ [])
    err ← ask env.close_pool Event.cache_closed
    unless_err err (λ e. some (to_error (wrap_as err_cache_generic (some e))))
        do info self.observer (a_string "Closed cache" ∷ []); pure none

  unfoldable pub close : Context F → Fallible F
  unfolding close_work
  close ctx = bounded ctx err_cache_timed_out err_cache_generic close_work

-- ===== src/Cache/Laws.antt =====
-- What the methods of cache.go return.
use kit_legacy.Base.{
  ◌≡◌, refl, ◌↔◌, ◌≤◌, Bool, true, false, Option, none, some, ◌∷◌, arith, if◌then◌else◌, uint32,
  eq_iff,
}
use kit_legacy.Errors.Value.{is_sentinel, GoError, foreign, ErrorsLib}
use kit_legacy.Errors.Error.{to_error, is_error, wrap_with_depth, new_error}
use kit_legacy.Errors.Laws.{is_sentinel_iff}
use kit_legacy.Errors.Builtin.{err_cache_miss, err_cache_generic}
use kit_legacy.World.Event.{Event, World}
use kit_legacy.World.Action.{returned}
use kit_legacy.World.Context.{Context}
use kit_legacy.Utils.Deadline.{DeadlineLib}
use kit_legacy.Cache.{Cache, RedisEnv, health_work, ch_err_to_error}

module _ {F : Type 0} ⦃lib : ErrorsLib F⦄ (env : RedisEnv F) where
  miss_of :
      (b : Bool) (err : Option (GoError F))
      → is_error err_cache_miss (
          to_error (
            if b
            then wrap_with_depth err_cache_miss 1 err
            else wrap_with_depth err_cache_generic 1 err))
        ≡ b
  unfolding is_error wrap_with_depth new_error
  miss_of true none = refl
  miss_of false none = refl
  miss_of true (some err) = refl
  miss_of false (some err) = refl

  -- An error of the library becomes a cache miss exactly when it is `cache.ErrCacheMiss`.
  pub ch_err_to_error-miss_iff :
      (err : GoError F)
      → (is_error err_cache_miss (to_error (ch_err_to_error env err)) ≡ true)
        ↔ (err ≡ foreign env.err_cache_miss)
  unfolding ch_err_to_error
  ch_err_to_error-miss_iff err =
      rw (miss_of (is_sentinel env.err_cache_miss err) (some err))
        (is_sentinel_iff env.err_cache_miss err)

module _ {F : Type 0} ⦃lib : ErrorsLib F⦄ ⦃timer : DeadlineLib F⦄ where
  -- The work of `Health` returns nil exactly when enough connections are open, the ping succeeds with the
  -- reply "PONG", and the context is not done behind it.
  pub health_work-none_iff :
      (self : Cache) (env : RedisEnv F) (ctx : Context F) (w : World F)
      → ((health_work self env ctx w).0 ≡ returned none) ↔ (
          (uint32 self.config.cache_min_conns ≤ env.total_conns w)
          × (env.ping w ≡ ("PONG", none))
          × (ctx.err (Event.pinged none ∷ w) ≡ none))
  unfolding health_work
  health_work-none_iff self env ctx w = ground (arith, eq_iff (env.ping w).0 "PONG")

-- ===== src/Cache/Health.antt =====
-- `Health` of cache.go, its deadline and the switch on its result included.
use kit_legacy.Base.{
  ◌≡◌, refl, inl, inr, ◌≤◌, ltb, not, ◌||◌, same_text, Bool-cases, Option, none, ◌∷◌, is_some,
  uint32, Option-cases,
}
use kit_legacy.Errors.Value.{GoError, ErrorsLib}
use kit_legacy.Errors.Error.{new_error}
use kit_legacy.Errors.Builtin.{err_cache_generic, err_cache_timed_out, err_cache_unhealthy}
use kit_legacy.World.Event.{Event, World}
use kit_legacy.World.Action.{returned}
use kit_legacy.World.Context.{Context}
use kit_legacy.Utils.Deadline.{DeadlineLib}
use kit_legacy.Utils.Deadline.Health.{HasReturned, Reports, bounded-Reports}
use kit_legacy.Cache.{Cache, RedisEnv, health_work, health}
use kit_legacy.Cache.Laws.{health_work-none_iff}

module _ {F : Type 0} ⦃lib : ErrorsLib F⦄ ⦃timer : DeadlineLib F⦄ (self : Cache) (env : RedisEnv F)
    (ctx : Context F) (w : World F) where
  health_work-HasReturned : HasReturned (health_work self env ctx w).0
  unfolding health_work
  health_work-HasReturned =
      let reply = env.ping w in
      elim (Bool-cases (ltb (env.total_conns w) (uint32 self.config.cache_min_conns))) [
        | inl few ↦ rw few tt
        | inr enough ↦ elim (Bool-cases (is_some reply.1 || not (same_text reply.0 "PONG"))) [
          | inl bad ↦ rw (enough, bad) tt
          | inr good ↦ elim (Option-cases (ctx.err (Event.pinged reply.1 ∷ w))) [
            | inl fine ↦ rw (enough, good, fine) tt
            | inr (err, done) ↦ rw (enough, good, done) tt
          ]
        ]
      ]

  -- Enough connections are open, the ping succeeds with the reply "PONG", and the context is not done behind it.
  abbrev pub IsHealthy : Type 0
  IsHealthy =
      (uint32 self.config.cache_min_conns ≤ env.total_conns w)
      × (env.ping w ≡ ("PONG", none))
      × (ctx.err (Event.pinged none ∷ w) ≡ none)

  -- Health of the cache always returns: nil only where enough connections are open, the ping gives "PONG" and the context is
  -- not done behind it; where that is so, nil, or the time-out of the cache if the context has a deadline; and never an error that
  -- is identified as ErrCacheUnhealthy.
  pub health-Reports :
      (result : Option (GoError F)) × (health self env ctx w
        ≡ (returned result, (health_work self env ctx w).1))
      × Reports ctx err_cache_timed_out err_cache_generic err_cache_unhealthy
          (health_work self env ctx)
          w
          IsHealthy
          result
  unfolding health new_error
  health-Reports =
      bounded-Reports ctx err_cache_timed_out err_cache_generic err_cache_unhealthy
        (health_work self env ctx) w IsHealthy refl refl (health_work-none_iff self env ctx w)
        health_work-HasReturned

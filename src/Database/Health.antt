-- ===== src/Database/Health.antt =====
-- `Health` of database.go, its deadline and the switch on its result included.
use kit_legacy.Base.{
  ◌≡◌, refl, ◌↔◌, inl, inr, false, ltb_ℤ, Bool-cases, Option, none, ◌∷◌, int32, arith, Option-cases,
}
use kit_legacy.Errors.Value.{GoError, ErrorsLib}
use kit_legacy.Errors.Error.{new_error}
use kit_legacy.Errors.Builtin.{err_database_generic, err_database_timed_out, err_database_unhealthy}
use kit_legacy.World.Event.{Event, World}
use kit_legacy.World.Action.{returned}
use kit_legacy.World.Context.{Context}
use kit_legacy.Utils.Deadline.{DeadlineLib}
use kit_legacy.Utils.Deadline.Health.{HasReturned, Reports, bounded-Reports}
use kit_legacy.Database.Store.{Database, PgxEnv, health_work, health}

module _ {F : Type 0} ⦃lib : ErrorsLib F⦄ ⦃timer : DeadlineLib F⦄ (self : Database) (env : PgxEnv F)
    (ctx : Context F) (w : World F) where
  health_work-HasReturned : HasReturned (health_work self env ctx w).0
  unfolding health_work
  health_work-HasReturned =
      elim (Bool-cases (ltb_ℤ (env.total_conns w) (int32 self.config.database_min_conns))) [
        | inl few ↦ rw few tt
        | inr enough ↦ elim (Option-cases (env.ping w)) [
          | inr (err, bad) ↦ rw (enough, bad) tt
          | inl good ↦ elim (Option-cases (ctx.err (Event.pinged none ∷ w))) [
            | inl fine ↦ rw (enough, good, fine) tt
            | inr (err, done) ↦ rw (enough, good, done) tt
          ]
        ]
      ]

  -- Enough connections are open, the ping succeeds, and the context is not done behind it.
  abbrev pub IsHealthy : Type 0
  IsHealthy =
      (ltb_ℤ (env.total_conns w) (int32 self.config.database_min_conns) ≡ false)
      × (env.ping w ≡ none)
      × (ctx.err (Event.pinged none ∷ w) ≡ none)

  health_work-none_iff : ((health_work self env ctx w).0 ≡ returned none) ↔ IsHealthy
  unfolding health_work
  health_work-none_iff = ground arith

  -- Health of the database always returns: nil only where at least the configured number of connections is open, as an int32, the
  -- ping succeeds and the context is not done behind it; where that is so, nil, or the time-out of the database if the
  -- context has a deadline; and never an error that is identified as ErrDatabaseUnhealthy.
  pub health_lem :
      (result : Option (GoError F)) × (health self env ctx w
        ≡ (returned result, (health_work self env ctx w).1))
      × Reports ctx err_database_timed_out err_database_generic err_database_unhealthy
          (health_work self env ctx)
          w
          IsHealthy
          result
  unfolding health new_error
  health_lem =
      bounded-Reports ctx err_database_timed_out err_database_generic err_database_unhealthy
        (health_work self env ctx) w IsHealthy refl refl health_work-none_iff
        health_work-HasReturned

-- ===== src/Migrator/Operation.antt =====
-- `Assert`, `Apply`, `Rollback` and `Close` of migrator.go.
use kit_legacy.Base.{
  ℕ, ℤ, pos, ◌-ℤ◌, String, ◌&◌, show, show_ℤ, uint, ltb, ◌==◌, codes, contains, Bool, Option, none,
  some, [], ◌∷◌, if◌then◌else◌,
}
use kit_legacy.Errors.Value.{GoError, ErrorsLib, is_sentinel, combine_errors, error_text}
use kit_legacy.Errors.Error.{to_error, wrap_as, withf}
use kit_legacy.Errors.Builtin.{err_migrator_generic, err_migrator_timed_out}
use kit_legacy.World.Event.{a_string, Event, World}
use kit_legacy.World.Action.{Action, Fallible, pure, emit, ask, look, unless_err, ◌>>=◌, ◌>>◌}
use kit_legacy.World.Context.{Context}
use kit_legacy.Utils.Deadline.{DeadlineLib, deadline, settle}
use kit_legacy.Observe.Observer.{Observer, info, infof}

pub record Migrator : Type 0 where
  pub observer : Observer

-- What `Version()` replies: the schema version, whether it is dirty, and the error.
pub record VersionReply (F : Type 0) : Type 0 where
  pub version : ℕ
  pub bad : Bool
  pub err : Option (GoError F)

-- github.com/golang-migrate/migrate: the replies, and the value of `migrate.ErrNilVersion`.
pub record MigrateEnv (F : Type 0) : Type 0 where
  pub read_version : World F → VersionReply F
  pub migrate : ℕ → World F → Option (GoError F)
  pub force : ℤ → World F → Option (GoError F)
  -- `Close()`: the errors of the source and of the database
  pub close_source : World F → Option (GoError F)
  pub close_database : World F → Option (GoError F)
  pub err_nil_version : F

module _ {F : Type 0} ⦃lib : ErrorsLib F⦄ where
  unfoldable pub generic_as : GoError F → Option (GoError F)
  generic_as err = some (to_error (wrap_as err_migrator_generic (some err)))

  unfoldable pub generic_withf : String → Option (GoError F)
  generic_withf text = some (to_error (withf err_migrator_generic text))

  -- `if err != nil && err != migrate.ErrNilVersion`
  unfoldable pub version_error : MigrateEnv F → Option (GoError F) → Option (GoError F)
  version_error env none = none
  version_error env (some err) = if is_sentinel env.err_nil_version err then none else some err

  unfoldable pub is_dirty : ℕ → Option (GoError F)
  is_dirty current = generic_withf ("current schema version " & show current & " is dirty")

  unfoldable pub is_behind : ℤ → ℕ → Option (GoError F)
  is_behind desired current =
      generic_withf
        ("desired schema version " & show_ℤ desired & " behind from current one " & show current)

  unfoldable pub is_ahead : ℤ → ℕ → Option (GoError F)
  is_ahead desired current =
      generic_withf
        ("desired schema version " & show_ℤ desired & " ahead of current one " & show current)

module _ {F : Type 0} ⦃lib : ErrorsLib F⦄ (self : Migrator) (env : MigrateEnv F)
    (schema_version : ℤ) where
  -- The inner functions of the three methods.
  assert_current : ℕ → Fallible F
  assert_current current =
      if ltb (uint schema_version) current
      then pure (is_behind schema_version current)
      else if ltb current (uint schema_version)
      then pure (is_ahead schema_version current)
      else (do
        infof self.observer ("Desired schema version " & show_ℤ schema_version & " asserted")
        pure none)

  unfoldable pub assert_work : Fallible F
  unfolding assert_current
  assert_work = do
    reply ← ask env.read_version (λ _. Event.version_read)
    unless_err (version_error env reply.err) generic_as
        (if reply.bad then pure (is_dirty reply.version) else assert_current reply.version)

  apply_current : ℕ → Fallible F
  apply_current current =
      if current == uint schema_version
      then (do info self.observer (a_string "No migrations to apply" ∷ []); pure none)
      else if ltb (uint schema_version) current
      then pure (is_behind schema_version current)
      else (do
        infof self.observer (show_ℤ (schema_version -ℤ pos current) & " migrations to be applied")
        err ← ask (env.migrate (uint schema_version)) (Event.migrated (uint schema_version))
        unless_err err generic_as
            do info self.observer (a_string "Applied all migrations successfully" ∷ []); pure none)

  unfoldable pub apply_work : Fallible F
  unfolding apply_current
  apply_work = do
    reply ← ask env.read_version (λ _. Event.version_read)
    unless_err (version_error env reply.err) generic_as
        (if reply.bad then pure (is_dirty reply.version) else apply_current reply.version)

  unfoldable pub rollback_current : ℕ → Fallible F
  rollback_current current =
      if current == uint schema_version
      then (do info self.observer (a_string "No migrations to rollback" ∷ []); pure none)
      else if ltb current (uint schema_version)
      then pure (is_ahead schema_version current)
      else (do
        infof self.observer
            (show_ℤ (pos current -ℤ schema_version) & " migrations to be rollbacked")
        err ← ask (env.migrate (uint schema_version)) (Event.migrated (uint schema_version))
        unless_err err generic_as do
          info self.observer (a_string "Rollbacked all migrations successfully" ∷ [])
          pure none)

  unfoldable pub rollback_dirty : ℕ → Fallible F
  rollback_dirty current = do
    infof self.observer ("Current schema version " & show current & " is dirty, ignoring")
    err ← ask (env.force (pos current)) (Event.version_forced (pos current))
    unless_err err generic_as (rollback_current current)

  unfoldable pub rollback_work : Fallible F
  unfolding rollback_current rollback_dirty
  rollback_work = do
    reply ← ask env.read_version (λ _. Event.version_read)
    unless_err reply.err generic_as
        (if reply.bad then rollback_dirty reply.version else rollback_current reply.version)

module _ {F : Type 0} ⦃lib : ErrorsLib F⦄ ⦃timer : DeadlineLib F⦄ where
  -- `if ctxDeadline, ok := ctx.Deadline(); ok { … LockTimeout = time.Until(ctxDeadline) }`
  unfoldable pub set_lock_timeout : Option ℤ → Action F (Unit {0})
  set_lock_timeout none = pure tt
  set_lock_timeout (some d) = do
    left ← look (timer.time_until d)
    emit (Event.lock_timeout_set (some left))

  -- The frame of the three methods: the channel, the lock timeout, and the switch. The channel that is
  -- closed is the one made here, since nothing else runs meanwhile.
  unfoldable pub operation : Context F → Fallible F → Fallible F
  unfolding set_lock_timeout
  operation ctx work = do
    emit Event.done_made
    set_lock_timeout ctx.deadline
    err ← deadline ctx (do result ← work; emit Event.done_closed; pure result)
    emit (Event.lock_timeout_set none)
    pure (settle err_migrator_timed_out err_migrator_generic err)

  unfoldable pub assert : Migrator → MigrateEnv F → Context F → ℤ → Fallible F
  assert self env ctx schema_version = operation ctx (assert_work self env schema_version)

  unfoldable pub apply : Migrator → MigrateEnv F → Context F → ℤ → Fallible F
  apply self env ctx schema_version = operation ctx (apply_work self env schema_version)

  unfoldable pub rollback : Migrator → MigrateEnv F → Context F → ℤ → Fallible F
  rollback self env ctx schema_version = operation ctx (rollback_work self env schema_version)

  -- An error of the database that is already closed is dropped.
  drop_closed : Option (GoError F) → Option (GoError F)
  drop_closed none = none
  drop_closed (some err) =
      if contains (codes "connection is already closed") (codes (error_text err))
      then none
      else some err

  close_work : Migrator → MigrateEnv F → Fallible F
  close_work self env = do
    info self.observer (a_string "Closing migrator" ∷ [])
    emit Event.stop_sent
    emit Event.done_received
    source_err ← look env.close_source
    database_err ← ask env.close_database (Event.source_closed source_err)
    unless_err (combine_errors source_err (drop_closed database_err)) generic_as
        do info self.observer (a_string "Closed migrator" ∷ []); pure none

  unfoldable pub close : Migrator → MigrateEnv F → Context F → Fallible F
  unfolding close_work drop_closed
  close self env ctx = do
    err ← deadline ctx (close_work self env)
    pure (settle err_migrator_timed_out err_migrator_generic err)

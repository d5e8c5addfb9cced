-- ===== src/Database/Store.antt =====
-- database.go: the state of a `Database`, and its methods but `Transaction`.
use kit_legacy.Base.{
  ℤ, String, ◌&◌, show_ℤ, int32, ltb_ℤ, Bool, true, false, Option, none, some, if◌then◌else◌,
}
use kit_legacy.Errors.Value.{GoError, ErrorsLib}
use kit_legacy.Errors.Error.{to_error, wrap_as, withf}
use kit_legacy.Errors.Builtin.{err_database_generic, err_database_timed_out, err_database_unhealthy}
use kit_legacy.World.Event.{Any, Event, World}
use kit_legacy.World.Action.{Action, Fallible, pure, emit, ask, look, unless_err, ◌>>=◌, ◌>>◌}
use kit_legacy.World.Context.{Context}
use kit_legacy.Utils.Deadline.{DeadlineLib, bounded}
use kit_legacy.Observe.Observer.{Observer, infof}
use kit_legacy.Observe.Observer.Traces.{TraceEnv, trace_query}
use kit_legacy.Database.Classify.{PgLib, db_err_to_error}

-- The configuration as `NewDatabase` leaves it, with the defaults filled in; durations are in
-- nanoseconds.
pub record DatabaseConfig : Type 0 where
  pub database_host : String
  pub database_port : ℤ
  pub database_ssl_mode : String
  pub database_user : String
  pub database_password : String
  pub database_name : String
  pub app_name : String
  pub database_min_conns : ℤ
  pub database_max_conns : ℤ
  pub database_max_conn_idle_time : ℤ
  pub database_max_conn_life_time : ℤ

pub record Database : Type 0 where
  pub config : DatabaseConfig
  pub observer : Observer

-- github.com/jackc/pgx and pgxscan: the replies of the connection pool and of a transaction.
pub record PgxEnv (F : Type 0) : Type 0 where
  pub total_conns : World F → ℤ
  pub ping : World F → Option (GoError F)
  pub begin_tx : World F → Option (GoError F)
  pub commit : World F → Option (GoError F)
  pub rollback : World F → Option (GoError F)
  -- what `Query` replies to a statement, in a transaction or not: whether there are rows, and the error
  pub has_rows : Bool → String → World F → Bool
  pub query : Bool → String → World F → Option (GoError F)
  pub scan : World F → Option (GoError F)
  pub execute : Bool → String → World F → Option (GoError F)
  pub rows_affected : World F → ℤ
  -- the error of Go's runtime for `v.(error)` on a value that is none
  pub conversion_error : Any F → F

-- A result with an error beside it.
abbrev pub WithError : Type 0 → Type 0 → Type 0
WithError F A = A × Option (GoError F)

module _ {F : Type 0} ⦃lib : ErrorsLib F⦄ where
  unfoldable pub db_error : PgLib → GoError F → Option (GoError F)
  db_error pg err = some (to_error (db_err_to_error pg err))

module _ {F : Type 0} ⦃lib : ErrorsLib F⦄ (self : Database) (pg : PgLib) (env : PgxEnv F)
    (tracing : TraceEnv F) where
  unfoldable pub scan_rows : Context F → Fallible F
  scan_rows ctx = do
    err ← look ctx.err
    unless_err err (db_error pg)
        do scanned ← look env.scan; unless_err scanned (db_error pg) (pure none)

  -- `defer rows.Close()`, where there are rows
  unfoldable pub close_rows : Bool → Action F (Unit {0})
  close_rows true = emit Event.rows_closed
  close_rows false = pure tt

  -- The body behind `TraceQuery`, up to the deferred close of the rows.
  unfoldable pub query_rows : Context F → String → Fallible F
  query_rows ctx sql = do
    rows ← look (env.has_rows ctx.transaction sql)
    err ← ask (env.query ctx.transaction sql) (Event.queried ctx.transaction sql)
    result ← unless_err err (db_error pg) (scan_rows ctx)
    close_rows rows
    pure result

  -- The deferred calls run in reverse: the rows, the trace, the statement. `caller` is the name that
  -- the runtime gives of the function that calls.
  unfoldable pub query : Context F → String → String → Fallible F
  query ctx caller sql = do
    traced ← trace_query self.observer tracing ctx caller sql
    result ← query_rows traced.0 sql
    traced.1
    emit Event.statement_closed
    pure result

  unfoldable pub affected : Context F → Action F (WithError F ℤ)
  affected ctx = do
    err ← look ctx.err
    elim err [
      | some e ↦ pure (ℤ.pos 0, db_error pg e)
      | none ↦ look (λ w. (env.rows_affected w, none))
    ]

  unfoldable pub exec_command : Context F → String → Action F (WithError F ℤ)
  unfolding affected
  exec_command ctx sql = do
    err ← ask (env.execute ctx.transaction sql) (Event.executed ctx.transaction sql)
    elim err [ some e ↦ pure (ℤ.pos 0, db_error pg e) | none ↦ affected ctx ]

  unfoldable pub exec : Context F → String → String → Action F (WithError F ℤ)
  exec ctx caller sql = do
    traced ← trace_query self.observer tracing ctx caller sql
    result ← exec_command traced.0 sql
    traced.1
    emit Event.statement_closed
    pure result

module _ {F : Type 0} ⦃lib : ErrorsLib F⦄ ⦃timer : DeadlineLib F⦄ (self : Database) where
  too_few_conns : ℤ → Option (GoError F)
  too_few_conns current = some (
      to_error (
        withf err_database_unhealthy (
          "current conns "
          & show_ℤ current
          & " below minimum "
          & show_ℤ self.config.database_min_conns)))

  unhealthy : GoError F → Option (GoError F)
  unhealthy err = some (to_error (wrap_as err_database_unhealthy (some err)))

  ping_work : PgxEnv F → Context F → Fallible F
  ping_work env ctx = do
    err ← ask env.ping Event.pinged
    unless_err err unhealthy do done ← look ctx.err; unless_err done unhealthy (pure none)

  unfoldable pub health_work : PgxEnv F → Context F → Fallible F
  unfolding too_few_conns unhealthy ping_work
  health_work env ctx = do
    current ← look env.total_conns
    if ltb_ℤ current (int32 self.config.database_min_conns)
        then pure (too_few_conns current)
        else ping_work env ctx

  unfoldable pub health : PgxEnv F → Context F → Fallible F
  health env ctx = bounded ctx err_database_timed_out err_database_generic (health_work env ctx)

  close_work : Fallible F
  close_work = do
    infof self.observer ("Closing " & self.config.database_name & " database")
    emit Event.pool_closed
    infof self.observer ("Closed " & self.config.database_name & " database")
    pure none

  unfoldable pub close : Context F → Fallible F
  unfolding close_work
  close ctx = bounded ctx err_database_timed_out err_database_generic close_work

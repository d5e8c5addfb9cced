-- ===== src/Migrator/Construct.antt =====
-- `NewMigrator` of migrator.go: the path of the migrations, the attempts to connect; and the logger that
-- golang-migrate is given.
use kit_legacy.Base.{ℕ, ℤ, String, ◌&◌, show, show_ℤ, Bool, false, Option, none, some, or_default}
use kit_legacy.Errors.Value.{GoError, ErrorsLib}
use kit_legacy.Errors.Error.{to_error, wrap_as}
use kit_legacy.Errors.Builtin.{err_migrator_generic, err_migrator_timed_out}
use kit_legacy.World.Event.{Event, World}
use kit_legacy.World.Action.{Action, Fallible, pure, emit, ask, unless_err, ◌>>=◌, ◌>>◌}
use kit_legacy.World.Context.{Context}
use kit_legacy.Utils.Deadline.{DeadlineLib}
use kit_legacy.Utils.Retry.{RetrierLib}
use kit_legacy.Observe.Observer.{Observer, infof}
use kit_legacy.Connect.{RetryConfig, retry_or_default, Built, announced, built, connect}
use kit_legacy.Migrator.Operation.{Migrator}

-- `MigratorConfig`. The path is what `MigrationsPath` points to: the constructor writes through the
-- pointer, so that the caller's text changes with it.
pub record MigratorConfig : Type 0 where
  pub migrations_path : Option String
  pub database_host : String
  pub database_port : ℤ
  pub database_ssl_mode : String
  pub database_user : String
  pub database_password : String
  pub database_name : String

-- `*config.MigrationsPath = …`, over `filepath.Clean`
abbrev default_migrations_path : String
default_migrations_path = "./migrations"

unfoldable pub migrations_source : (String → String) → MigratorConfig → String
migrations_source clean config =
    "file://" & clean (or_default config.migrations_path default_migrations_path)

-- The configuration as the caller has it behind the call: a nil pointer stays nil.
unfoldable pub left_config : (String → String) → MigratorConfig → MigratorConfig
left_config clean config = record config {
  migrations_path = elim config.migrations_path [
    | none ↦ none
    | some path ↦ some (migrations_source clean config)
  ];
}

unfoldable pub data_source : MigratorConfig → String
data_source config =
    "postgresql://"
    & config.database_user
    & ":"
    & config.database_password
    & "@"
    & config.database_host
    & ":"
    & show_ℤ config.database_port
    & "/"
    & config.database_name
    & "?sslmode="
    & config.database_ssl_mode
    & "&x-multi-statement=true"

module _ {F : Type 0} ⦃lib : ErrorsLib F⦄ where
  -- `_migrateLogger.Printf`, on the formatted text, and `Verbose`
  unfoldable pub migrate_printf : Observer → String → Action F (Unit {0})
  migrate_printf observer text = infof observer text

  -- One attempt: `migrate.New` with the source and the database.
  unfoldable pub open_migrate :
      (String → String → World F → Option (GoError F)) → String → String → Fallible F
  open_migrate new source database = do
    err ← ask (new source database) (Event.opened "migrate")
    unless_err err (λ e. some (to_error (wrap_as err_migrator_generic (some e)))) (pure none)

  unfoldable pub announce : Observer → MigratorConfig → RetryConfig → ℕ → Action F (Unit {0})
  announce observer config retry attempt = infof observer (
      "Trying to connect to the "
      & config.database_name
      & " database "
      & show attempt
      & "/"
      & show_ℤ retry.attempts)

  unfoldable pub finish : Observer → MigratorConfig → Action F Migrator
  finish observer config = do
    infof observer ("Connected to the " & config.database_name & " database")
    emit Event.done_made
    emit Event.done_closed
    pure (record { observer = observer })

unfoldable pub verbose : Bool
verbose = false

module _ {F : Type 0} ⦃lib : ErrorsLib F⦄ ⦃timer : DeadlineLib F⦄ ⦃retrier : RetrierLib F⦄ where
  -- `new` is `migrate.New`.
  unfoldable pub new_migrator :
      (String → String → World F → Option (GoError F))
      → (String → String)
      → Context F
      → Observer
      → MigratorConfig
      → Option RetryConfig
      → Action F (Built F Migrator)
  new_migrator new clean ctx observer config retry =
      let retry' = retry_or_default retry in
      do
        err ← connect ctx retry' err_migrator_timed_out err_migrator_generic (
            announced (announce observer config retry')
              (open_migrate new (migrations_source clean config) (data_source config)))
        built err (finish observer config)

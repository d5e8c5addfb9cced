-- ===== src/Observe/Observer/Construct.antt =====
-- `NewObserver` of observer.go: the logger, the attempts to connect to Sentry, and the service of Gilk.
use kit_legacy.Base.{
  ℕ, ℤ, pos, String, ◌&◌, show, show_ℤ, Option, none, some, [], ◌∷◌, if◌then◌else◌,
}
use kit_legacy.Errors.Value.{GoError, ErrorsLib, is_sentinel}
use kit_legacy.Errors.Error.{to_error, wrap, wrap_as}
use kit_legacy.Errors.Builtin.{err_observer_generic, err_observer_timed_out}
use kit_legacy.World.Event.{Any, a_string, Event, World}
use kit_legacy.World.Action.{Action, Fallible, pure, emit, ask, unless_err, ◌>>=◌, ◌>>◌}
use kit_legacy.World.Context.{Context}
use kit_legacy.Utils.Deadline.{DeadlineLib}
use kit_legacy.Utils.Retry.{RetrierLib}
use kit_legacy.Observe.Logger
use kit_legacy.Observe.Logger.{Logger, new_logger}
use kit_legacy.Observe.Observer.{Observer, ObserverConfig}
use kit_legacy.Connect.{RetryConfig, retry_or_default, Built, announced, built, connect}

unfoldable pub logger_of : ObserverConfig → Logger
logger_of config =
    new_logger
      (record { app_name = config.app_name; level = config.level; skip_frame_count = some (pos 2) })

module _ {F : Type 0} ⦃lib : ErrorsLib F⦄ where
  -- One attempt: `sentry.Init` with the options; `init` is the reply to the DSN.
  unfoldable pub open_sentry : (String → World F → Option (GoError F)) → String → Fallible F
  open_sentry init dsn = do
    err ← ask (init dsn) (Event.opened "sentry")
    unless_err err (λ e. some (to_error (wrap_as err_observer_generic (some e)))) (pure none)

  unfoldable pub announce : Logger → RetryConfig → ℕ → Action F (Unit {0})
  announce logger retry attempt =
      Logger.infof logger
        ("Trying to connect to the Sentry service " & show attempt & "/" & show_ℤ retry.attempts)

  -- What the goroutine of the service does when `gilk.Serve` ends, with `http.ErrServerClosed` given.
  unfoldable pub gilk_served : F → Logger → Option (GoError F) → Action F (Unit {0})
  gilk_served err_server_closed logger none = pure tt
  gilk_served err_server_closed logger (some err) =
      if is_sentinel err_server_closed err
      then pure tt
      else Logger.log_error logger
          (Any.an_error (to_error (wrap err_observer_generic (some err))) ∷ [])

  unfoldable pub start_gilk : Logger → Option ℤ → Action F (Unit {0})
  start_gilk logger none = pure tt
  start_gilk logger (some port) = do
    Logger.info logger (a_string "Starting the Gilk service" ∷ [])
    emit (Event.configured "gilk skipped frames")
    emit (Event.started "gilk" none)
    Logger.infof logger ("Started the Gilk service at port " & show_ℤ port)

  -- What follows the connection to Sentry.
  unfoldable pub finish : ObserverConfig → Action F Observer
  finish config = do
    start_gilk (logger_of config) config.gilk_config
    pure (record { config = config; logger = logger_of config })

module _ {F : Type 0} ⦃lib : ErrorsLib F⦄ ⦃timer : DeadlineLib F⦄ ⦃retrier : RetrierLib F⦄
    (init : String → World F → Option (GoError F)) (ctx : Context F) where
  unfoldable pub connect_sentry : ObserverConfig → RetryConfig → Option String → Fallible F
  connect_sentry config retry none = pure none
  connect_sentry config retry (some dsn) = do
    err ←
        connect ctx retry err_observer_timed_out err_observer_generic
          (announced (announce (logger_of config) retry) (open_sentry init dsn))
    unless_err err some do
      Logger.info (logger_of config) (a_string "Connected to the Sentry service" ∷ [])
      pure none

  unfoldable pub new_observer : ObserverConfig → Option RetryConfig → Action F (Built F Observer)
  new_observer config retry = do
    err ← connect_sentry config (retry_or_default retry) config.sentry_config
    built err (finish config)

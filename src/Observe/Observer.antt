-- ===== src/Observe/Observer.antt =====
-- observer.go: the observer, which filters by level, logs, and reports errors to Sentry. `Construct`
-- is `NewObserver`, `Traces` the `Trace…` methods, and `Spans` is about what these start and end.
pub mod Levels
pub mod Reports
pub mod Construct
pub mod Traces
pub mod Spans
use kit_legacy.Base.{
  ℕ, ℤ, pos, String, ◌≡◌, Bool, true, false, Option, none, some, List, [], ◌∷◌, if◌then◌else◌,
  or_default, is_some,
}
use kit_legacy.Errors.Value.{GoError, foreign, ErrorsLib}
use kit_legacy.Errors.Error.{Error, to_error, wrap_as, with_message}
use kit_legacy.Errors.Builtin.{err_observer_generic, err_observer_timed_out}
use kit_legacy.World.Event.{Any, ZLevel, Event, World, sprint}
use kit_legacy.World.Action.{
  Outcome, returned, panicked, exited, Action, Fallible, pure, panic_with, exit, emit, ask,
  unless_err, when, ◌>>=◌, ◌>>◌,
}
use kit_legacy.World.Context.{Context}
use kit_legacy.Utils.Deadline.{DeadlineLib, bounded}
use kit_legacy.Observe.Level.{lvl_trace, lvl_debug, lvl_info, lvl_warn, lvl_error, ◌>=◌, same_level}
use kit_legacy.Observe.Logger
use kit_legacy.Observe.Logger.{Logger, LoggerConfig, ZerologLib, new_logger}

pub record ObserverConfig : Type 0 where
  pub environment : String
  pub release : String
  pub app_name : String
  pub level : ℤ
  -- the DSN of Sentry and the port of Gilk, where they are configured
  pub sentry_config : Option String
  pub gilk_config : Option ℤ

pub record Observer : Type 0 where
  pub config : ObserverConfig
  pub logger : Logger

module _ {F : Type 0} ⦃lib : ErrorsLib F⦄ where
  -- `sendErrToSentry`: what is reported is the error that kit's types wrap, any other error itself, and
  -- a new error with the printed text for the rest. Nil and an empty list are not reported.
  unfoldable pub send_err_to_sentry : List (Any F) → Action F (Unit {0})
  send_err_to_sentry [] = pure tt
  send_err_to_sentry (Any.nil ∷ _) = pure tt
  send_err_to_sentry (Any.an_error (GoError.error inner _ _) ∷ _) = emit (Event.captured inner)
  send_err_to_sentry (Any.an_error (GoError.exception inner _ _ _ _) ∷ _) =
      emit (Event.captured inner)
  send_err_to_sentry (Any.an_error (foreign f) ∷ _) = emit (Event.captured (foreign f))
  send_err_to_sentry (Any.a_string s ∷ rest) =
      emit (Event.captured (foreign (lib.new_with_depth 2 (sprint (Any.a_string s ∷ rest)))))
  send_err_to_sentry (Any.other s ∷ rest) =
      emit (Event.captured (foreign (lib.new_with_depth 2 (sprint (Any.other s ∷ rest)))))

  -- `if !(level >= self.config.Level) { return }`, then the rest.
  unfoldable pub at_level : Observer → ℤ → Action F (Unit {0}) → Action F (Unit {0})
  at_level self level rest = when (level >= self.config.level) rest

  -- `if self.config.SentryConfig != nil { self.sendErrToSentry(…) }`
  unfoldable pub report : Observer → List (Any F) → Action F (Unit {0})
  report self i = when (is_some self.config.sentry_config) (send_err_to_sentry i)

module _ {F : Type 0} ⦃lib : ErrorsLib F⦄ where
  unfoldable pub print : Observer → List (Any F) → Action F (Unit {0})
  print self i = at_level self lvl_trace (Logger.print self.logger i)

  unfoldable pub debug : Observer → List (Any F) → Action F (Unit {0})
  debug self i = at_level self lvl_debug (Logger.debug self.logger i)

  unfoldable pub info : Observer → List (Any F) → Action F (Unit {0})
  info self i = at_level self lvl_info (Logger.info self.logger i)

  unfoldable pub warn : Observer → List (Any F) → Action F (Unit {0})
  warn self i = at_level self lvl_warn (Logger.warn self.logger i)

  unfoldable pub log_error : Observer → List (Any F) → Action F (Unit {0})
  log_error self i = at_level self lvl_error (Logger.log_error self.logger i >> report self i)

  unfoldable pub with_level : Observer → ℤ → List (Any F) → Action F (Unit {0})
  with_level self level i =
      if same_level level lvl_trace
      then print self i
      else if same_level level lvl_debug
      then debug self i
      else if same_level level lvl_info
      then info self i
      else if same_level level lvl_warn
      then warn self i
      else if same_level level lvl_error
      then log_error self i
      else pure tt

module _ {F : Type 0} ⦃lib : ErrorsLib F⦄ ⦃zerolog : ZerologLib F⦄ where
  unfoldable pub fatal : Observer → List (Any F) → Action F (Unit {0})
  fatal self i = at_level self lvl_error (Logger.fatal self.logger i >> report self i)

  unfoldable pub log_panic : Observer → List (Any F) → Action F (Unit {0})
  log_panic self i = at_level self lvl_error (Logger.log_panic self.logger i >> report self i)

-- The formatted variants, on the formatted text.
module _ {F : Type 0} ⦃lib : ErrorsLib F⦄ where
  unfoldable pub printf : Observer → String → Action F (Unit {0})
  printf self text = at_level self lvl_trace (Logger.printf self.logger text)

  unfoldable pub debugf : Observer → String → Action F (Unit {0})
  debugf self text = at_level self lvl_debug (Logger.debugf self.logger text)

  unfoldable pub infof : Observer → String → Action F (Unit {0})
  infof self text = at_level self lvl_info (Logger.infof self.logger text)

  unfoldable pub warnf : Observer → String → Action F (Unit {0})
  warnf self text = at_level self lvl_warn (Logger.warnf self.logger text)

  unfoldable pub errorf : Observer → String → Action F (Unit {0})
  errorf self text =
      at_level self lvl_error
        (Logger.errorf self.logger text >> report self (Any.a_string text ∷ []))

  unfoldable pub with_levelf : Observer → ℤ → String → Action F (Unit {0})
  with_levelf self level text =
      if same_level level lvl_trace
      then printf self text
      else if same_level level lvl_debug
      then debugf self text
      else if same_level level lvl_info
      then infof self text
      else if same_level level lvl_warn
      then warnf self text
      else if same_level level lvl_error
      then errorf self text
      else pure tt

module _ {F : Type 0} ⦃lib : ErrorsLib F⦄ ⦃zerolog : ZerologLib F⦄ where
  unfoldable pub fatalf : Observer → String → Action F (Unit {0})
  fatalf self text =
      at_level self lvl_error
        (Logger.fatalf self.logger text >> report self (Any.a_string text ∷ []))

  unfoldable pub panicf : Observer → String → Action F (Unit {0})
  panicf self text =
      at_level self lvl_error
        (Logger.panicf self.logger text >> report self (Any.a_string text ∷ []))

-- The trace id of a context.
module _ {F : Type 0} where
  unfoldable pub set_trace : Context F → String → Context F
  set_trace ctx trace_id = record ctx { trace_id = some trace_id }

  -- `fresh` is what `xid.New()` gives.
  unfoldable pub get_trace : Context F → String → String
  get_trace ctx fresh = or_default ctx.trace_id fresh

-- two seconds
abbrev default_sentry_flush_timeout : ℤ
default_sentry_flush_timeout = pos 2000000000

-- `Flush` and `Close`. `sentry_flush` is what `sentry.Flush` replies to a time-out, and `writer_close` what closing
-- the writer of the logger does.
module _ {F : Type 0} ⦃lib : ErrorsLib F⦄ ⦃timer : DeadlineLib F⦄ (self : Observer)
    (sentry_flush : ℤ → World F → Bool) where
  lost_events : Bool → Option (GoError F)
  lost_events true = none
  lost_events false =
      some (to_error (with_message err_observer_generic "sentry lost events while flushing"))

  -- The time until the deadline of the context, if it has one.
  flush_sentry : Context F → Fallible F
  flush_sentry ctx =
      let timeout = or_default ctx.deadline default_sentry_flush_timeout in
      if is_some self.config.sentry_config
      then (do ok ← ask (sentry_flush timeout) Event.sentry_flushed; pure (lost_events ok))
      else pure none

  reset_gilk : Action F (Unit {0})
  reset_gilk = when (is_some self.config.gilk_config) (emit Event.gilk_reset)

  flush_work : Context F → Fallible F
  flush_work ctx = do
    err ← Logger.flush self.logger ctx
    unless_err err (λ e. some (to_error (wrap_as err_observer_generic (some e))))
        do lost ← flush_sentry ctx; unless_err lost some (reset_gilk >> pure none)

  unfoldable pub flush : Context F → Fallible F
  unfolding flush_work flush_sentry reset_gilk lost_events
  flush ctx = bounded ctx err_observer_timed_out err_observer_generic (flush_work ctx)

  log_services : Action F (Unit {0})
  log_services = do
    when (is_some self.config.sentry_config) do
      Logger.info self.logger (Any.a_string "Closing Sentry service" ∷ [])
      Logger.info self.logger (Any.a_string "Closed Sentry service" ∷ [])
    when (is_some self.config.gilk_config) do
      Logger.info self.logger (Any.a_string "Closing Gilk service" ∷ [])
      Logger.info self.logger (Any.a_string "Closed Gilk service" ∷ [])

  close_work : (World F → Option (GoError F)) → Context F → Fallible F
  close_work writer_close ctx = do
    Logger.info self.logger (Any.a_string "Closing observer" ∷ [])
    err ← flush ctx
    unless_err err (λ e. some (to_error (wrap_as err_observer_generic (some e))))
        do
          log_services
          closed ← Logger.close self.logger writer_close ctx
          unless_err closed (λ e. some (to_error (wrap_as err_observer_generic (some e))))
              do Logger.info self.logger (Any.a_string "Closed observer" ∷ []); pure none

  unfoldable pub close : (World F → Option (GoError F)) → Context F → Fallible F
  unfolding close_work log_services
  close writer_close ctx =
      bounded ctx err_observer_timed_out err_observer_generic (close_work writer_close ctx)

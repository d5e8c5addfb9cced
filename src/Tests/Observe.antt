-- ===== src/Tests/Observe.antt =====
-- Loggers and observers at several levels.
use kit_legacy.Base.{ℤ, String, ◌≡◌, refl, true, false, none, some, [], ◌∷◌}
use kit_legacy.Errors.Value.{foreign}
use kit_legacy.World.Event.{Any, an_error, a_string, ZLevel}
use kit_legacy.World.Action.{returned, exited}
use kit_legacy.Observe.Level.{lvl_debug, lvl_info, lvl_error}
use kit_legacy.Observe.Logger
use kit_legacy.Observe.Logger.{Logger, LoggerConfig, new_logger}
use kit_legacy.Observe.Observer
use kit_legacy.Observe.Observer.{Observer}
use kit_legacy.Observe.Observer.Levels.{with_level_silent}
use kit_legacy.Observe.Observer.Reports.{captures, log_error_reports, fatal_exits_unreported}
use kit_legacy.Tests.Libs.{plain_errors, plain_zerolog}

abbrev config_at : ℤ → LoggerConfig
config_at level = record { app_name = "app"; level = level; skip_frame_count = some (ℤ.pos 2) }

abbrev pub observer_at : ℤ → Observer
observer_at level = record {
  config = record {
    environment = "prod";
    release = "1";
    app_name = "app";
    level = level;
    sentry_config = some "dsn";
    gilk_config = none;
  };
  logger = record {
    config = config_at level;
    threshold = ZLevel.info;
    out = Logger.diode;
    prefix = "app";
    header = "";
    level = level;
    verbose = false;
    skip_frame_count = ℤ.pos 2;
  };
}

new_logger_test : (new_logger (config_at lvl_debug)).verbose ≡ true
unfolding new_logger
new_logger_test = refl

-- `SetLevel` of the embedded logger leaves the filter of the observer alone.
set_level_test :
    let o = observer_at lvl_info in
    Observer.debug {F = String}
      (record o { logger = Logger.set_level o.logger lvl_debug })
      (a_string "x" ∷ [])
      []
    ≡ (returned tt, [])
unfolding Observer.debug Observer.at_level Logger.set_level
set_level_test = refl

with_level_silent_test :
    Observer.with_level {F = String} (observer_at lvl_error) lvl_info (a_string "x" ∷ []) []
    ≡ (returned tt, [])
with_level_silent_test =
    with_level_silent (observer_at lvl_error) lvl_info (a_string "x" ∷ []) [] refl

abbrev lost : Any String
lost = an_error (foreign "lost")

log_error_reports_test :
    ((Observer.log_error (observer_at lvl_info) (lost ∷ []) []).0 ≡ returned tt)
    × (captures (Observer.log_error (observer_at lvl_info) (lost ∷ []) []).1 ≡ 1)
unfolding captures
log_error_reports_test = log_error_reports (observer_at lvl_info) (foreign "lost") [] [] refl

fatal_exits_unreported_example :
    ((Observer.fatal (observer_at lvl_info) (lost ∷ []) []).0 ≡ exited 1)
    × (captures (Observer.fatal (observer_at lvl_info) (lost ∷ []) []).1 ≡ 0)
unfolding captures
fatal_exits_unreported_example = fatal_exits_unreported (observer_at lvl_info) (lost ∷ []) [] refl

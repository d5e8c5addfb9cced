-- ===== src/Observe/Observer/Reports.antt =====
-- What observer.go reports to Sentry.
use kit_legacy.Base.{ℕ, suc, ◌≡◌, refl, true, List, [], ◌∷◌, arith, is_some, if◌then◌else◌}
use kit_legacy.Errors.Value.{GoError, foreign, ErrorsLib}
use kit_legacy.World.Event.{Any, Event, World, sprint}
use kit_legacy.World.Action.{returned, exited}
use kit_legacy.Observe.Level.{lvl_error, ◌>=◌}
use kit_legacy.Observe.Logger
use kit_legacy.Observe.Logger.{ZerologLib, print_debug_error}
use kit_legacy.Observe.Observer.{Observer, log_error, fatal, at_level, report, send_err_to_sentry}

-- How many reports a trace holds.
unfoldable pub captures : {F : Type 0} → World F → ℕ
captures [] = 0
captures (Event.captured _ ∷ w) = suc (captures w)
captures (_ ∷ w) = captures w

module _ {F : Type 0} ⦃lib : ErrorsLib F⦄ where
  -- The console lines of the debug mode are no reports.
  print_debug_error_lem :
      (i : List (Any F)) (w : World F)
      → ((print_debug_error i w).0 ≡ returned tt)
        × (captures (print_debug_error i w).1 ≡ captures w)
  unfolding print_debug_error captures
  print_debug_error_lem [] w = (refl, refl)
  print_debug_error_lem (Any.nil ∷ rest) w = (refl, refl)
  print_debug_error_lem (Any.a_string s ∷ rest) w = (refl, refl)
  print_debug_error_lem (Any.other s ∷ rest) w = (refl, refl)
  print_debug_error_lem (Any.an_error (foreign f) ∷ rest) w = (refl, refl)
  print_debug_error_lem (Any.an_error (GoError.error _ _ _) ∷ []) w = (refl, refl)
  print_debug_error_lem (Any.an_error (GoError.error _ _ _) ∷ _ ∷ _) w = (refl, refl)
  print_debug_error_lem (Any.an_error (GoError.exception _ _ _ _ _) ∷ []) w = (refl, refl)
  print_debug_error_lem (Any.an_error (GoError.exception _ _ _ _ _) ∷ _ ∷ _) w = (refl, refl)

  log_error-captures :
      (logger : Logger.Logger) (i : List (Any F)) (w : World F)
      → ((Logger.log_error logger i w).0 ≡ returned tt)
        × (captures (Logger.log_error logger i w).1 ≡ captures w)
  unfolding Logger.log_error captures
  log_error-captures logger i w = ground (arith, print_debug_error_lem i w)

  report-captures :
      (self : Observer) (err : GoError F) (rest : List (Any F)) (w : World F)
      → ((report self (Any.an_error err ∷ rest) w).0 ≡ returned tt)
        × (captures (report self (Any.an_error err ∷ rest) w).1
            ≡ (if is_some self.config.sentry_config then suc (captures w) else captures w))
  unfolding report send_err_to_sentry captures
  report-captures self (GoError.error _ _ _) rest w = ground arith
  report-captures self (GoError.exception _ _ _ _ _) rest w = ground arith
  report-captures self (foreign f) rest w = ground arith

  -- An error given to an observer that logs errors is reported to Sentry exactly once where Sentry is
  -- configured, and not at all where it is not; the call returns.
  pub log_error_reports :
      (self : Observer) (err : GoError F) (rest : List (Any F)) (w : World F)
      → lvl_error >= self.config.level ≡ true
      → ((log_error self (Any.an_error err ∷ rest) w).0 ≡ returned tt)
        × (captures (log_error self (Any.an_error err ∷ rest) w).1
            ≡ (if is_some self.config.sentry_config then suc (captures w) else captures w))
  unfolding log_error at_level
  log_error_reports self err rest w h =
      let i : List (Any F) = Any.an_error err ∷ rest in
      ground (
        arith,
        log_error-captures self.logger i w,
        report-captures self err rest (Logger.log_error self.logger i w).1,
      )

module _ {F : Type 0} ⦃lib : ErrorsLib F⦄ ⦃zerolog : ZerologLib F⦄ where
  -- `Fatal` on an observer that logs errors ends the process with status 1, in debug mode and out of
  -- it, before anything is reported to Sentry: the call of `sendErrToSentry` behind it is never reached.
  pub fatal_exits_unreported :
      (self : Observer) (i : List (Any F)) (w : World F)
      → lvl_error >= self.config.level ≡ true
      → ((fatal self i w).0 ≡ exited 1) × (captures (fatal self i w).1 ≡ captures w)
  unfolding fatal at_level Logger.fatal captures
  fatal_exits_unreported self i w h =
      ground
        (arith, print_debug_error_lem i w, zerolog.fatal_exits self.logger.threshold (sprint i) w)

-- ===== src/ExceptionHandler.antt =====
-- exception_handler.go: the response to an error of a handler.
pub mod Laws
use kit_legacy.Base.{
  ◌||◌, ℤ, pos, String, ◌&◌, leb_ℤ, same_text, Bool, true, false, Option, none, some, List, [], ◌∷◌,
  if◌then◌else◌,
}
use kit_legacy.Errors.Value.{GoError, ErrorsLib, is_sentinel}
use kit_legacy.Errors.Error
use kit_legacy.Errors.Exception.{
  Exception, to_error, as_exception, cause, redact, marshal_json, text_of,
}
use kit_legacy.Errors.Builtin.{
  err_exception_handler_generic, exc_server_generic, exc_request_timeout, exc_invalid_request,
  exc_not_found,
}
use kit_legacy.World.Event.{Any, Event, World}
use kit_legacy.World.Action.{Action, pure, ask, when, ◌>>=◌, ◌>>◌}
use kit_legacy.Observe.Observer.{Observer, log_error}

pub record ExceptionHandler : Type 0 where
  pub environment : String
  pub observer : Observer

-- kit.go: `EnvDevelopment`
abbrev pub env_development : String
env_development = "dev"

-- Values of github.com/labstack/echo and net/http, and the replies of `NoContent` and `JSON`.
pub record EchoEnv (F : Type 0) : Type 0 where
  pub err_not_found : F
  pub err_method_not_allowed : F
  pub err_request_entity_too_large : F
  pub err_handler_timeout : F
  pub err_abort_handler : F
  pub no_content : World F → Option (GoError F)
  pub json : World F → Option (GoError F)

-- The request and the response, as far as the handler looks at them.
pub record Exchange : Type 0 where
  pub committed : Bool
  pub is_head : Bool

module _ {F : Type 0} where
  -- what `JSON` is given
  unfoldable pub shown : ExceptionHandler → Exception F → Exception F
  shown self exc = if same_text self.environment env_development then exc else redact exc

  -- The error behind `Handle`: `Redact` clears the message of the exception itself.
  unfoldable pub left : ExceptionHandler → Exchange → GoError F → GoError F
  left self exchange err =
      if exchange.committed || exchange.is_head
      then err
      else elim (as_exception err) [ some exc ↦ to_error (shown self exc) | none ↦ err ]

module _ {F : Type 0} ⦃lib : ErrorsLib F⦄ where
  -- The error reported when the response fails; the exception prints as its text.
  unfoldable pub cannot_return : Exception F → GoError F → GoError F
  cannot_return exc err = Error.to_error (
      Error.wrap
        (Error.withf err_exception_handler_generic ("cannot return exception " & text_of exc))
        (some err))

  unfoldable pub report_failure :
      ExceptionHandler → Exception F → Option (GoError F) → Action F (Unit {0})
  report_failure self exc none = pure tt
  report_failure self exc (some err) =
      log_error self.observer (Any.an_error (cannot_return exc err) ∷ [])

module _ {F : Type 0} ⦃lib : ErrorsLib F⦄ (env : EchoEnv F) where
  -- The `switch` on the value of an error that is no exception.
  unfoldable pub exception_for : GoError F → Exception F
  exception_for err =
      if is_sentinel env.err_not_found err
      then cause exc_not_found (some err)
      else if is_sentinel env.err_method_not_allowed err
      then cause exc_invalid_request (some err)
      else if is_sentinel env.err_request_entity_too_large err
      then cause exc_invalid_request (some err)
      else if is_sentinel env.err_handler_timeout err
      then cause exc_request_timeout (some err)
      else cause exc_server_generic (some err)

  unfoldable pub choose : GoError F → Exception F
  choose err = elim (as_exception err) [ some exc ↦ exc | none ↦ exception_for err ]

  unfoldable pub respond : ExceptionHandler → Bool → Exception F → Action F (Option (GoError F))
  respond self is_head exc =
      if is_head
      then ask env.no_content (Event.responded_no_content exc.status)
      else ask env.json (Event.responded_json exc.status (marshal_json (shown self exc)))

  unfoldable pub handle_exception : ExceptionHandler → Bool → Exception F → Action F (Unit {0})
  handle_exception self is_head exc = do
    when (leb_ℤ (pos 500) exc.status) (log_error self.observer (Any.an_error (to_error exc) ∷ []))
    err ← respond self is_head exc
    report_failure self exc err

  unfoldable pub handle : ExceptionHandler → GoError F → Exchange → Action F (Unit {0})
  handle self err exchange =
      if exchange.committed then pure tt else handle_exception self exchange.is_head (choose err)

-- ===== src/Middleware/Chain.antt =====
-- middleware/recover.go and middleware/exception.go, and the part of middleware/localizer.go that sets
-- the locale. `ctx.Error` is the method `handle` of the exception handler, on the response as it is.
-- `Pipeline` and `Serving` put the first two into a server, and `Localizing` is about the third.
pub mod Laws
pub mod Localizing
pub mod Pipeline
pub mod Serving
use kit_legacy.Base.{String, Option, none, some, List, [], ◌∷◌, if◌then◌else◌}
use kit_legacy.Errors.Value.{GoError, ErrorsLib, is_sentinel}
use kit_legacy.Errors.Error.{to_error, with_message, wrap}
use kit_legacy.Errors.Builtin.{err_server_generic, err_localizer_generic}
use kit_legacy.World.Event.{Any, text_of_any, World}
use kit_legacy.World.Action.{
  Outcome, returned, panicked, exited, Action, Fallible, pure, ◌>>=◌, ◌>>◌,
}
use kit_legacy.World.Context.{Context}
use kit_legacy.Observe.Observer.{Observer, log_error}
use kit_legacy.ExceptionHandler.{ExceptionHandler, EchoEnv, Exchange, left, handle}
use kit_legacy.Localizer.{set_locale}

-- echo.HandlerFunc
abbrev pub Handler : Type 0 → Type 0
Handler F = Context F → Fallible F

-- Where the response stands at the moments at which the middlewares ask `ctx.Error`.
abbrev pub Response : Type 0 → Type 0
Response F = World F → Exchange

module _ {F : Type 0} ⦃lib : ErrorsLib F⦄ where
  -- `err, ok := rec.(error); if !ok { … }`
  unfoldable pub recovered_error : Any F → GoError F
  recovered_error (Any.an_error err) = err
  recovered_error v = to_error (with_message err_server_generic (text_of_any v))

module _ {F : Type 0} ⦃lib : ErrorsLib F⦄ (env : EchoEnv F) (exceptions : ExceptionHandler)
    (response : Response F) where
  -- `ctx.Error(err)`
  unfoldable pub context_error : GoError F → Action F (Unit {0})
  context_error err w = handle env exceptions err (response w) w

  unfoldable pub passed : Option (GoError F) → Fallible F
  passed none w = (returned none, w)
  passed (some err) w = (context_error err >> pure (some (left exceptions (response w) err))) w

  -- `Exception.Handle`
  unfoldable pub exception_handle : Handler F → Handler F
  exception_handle next ctx = next ctx >>= passed

  -- The deferred function on a value that is not nil; the handler returns nil behind it.
  unfoldable pub recover : GoError F → Fallible F
  recover err =
      if is_sentinel env.err_abort_handler err
      then (λ w. (panicked (Any.an_error err), w))
      else (do context_error err; pure none)

  unfoldable pub after_next :
      Outcome F (Option (GoError F)) × World F → Outcome F (Option (GoError F)) × World F
  after_next (returned err, w) = (returned err, w)
  after_next (panicked v, w) = recover (recovered_error v) w
  after_next (exited code, w) = (exited code, w)

  -- `Recover.Handle`
  unfoldable pub recover_handle : Handler F → Handler F
  recover_handle next ctx w = after_next (next ctx w)

module _ {F : Type 0} where
  -- The preferred language comes first.
  unfoldable pub with_first : List String → Context F → Context F
  with_first [] ctx = ctx
  with_first (locale ∷ rest) ctx = set_locale ctx locale

module _ {F : Type 0} ⦃lib : ErrorsLib F⦄ (observer : Observer) where
  unfoldable pub log_parse_error : Option (GoError F) → Action F (Unit {0})
  log_parse_error none = pure tt
  log_parse_error (some err) =
      log_error observer (Any.an_error (to_error (wrap err_localizer_generic (some err))) ∷ [])

  -- `Localizer.Handle`, over the parser: the languages of the header, and its error.
  unfoldable pub localizer_handle :
      (String → List String × Option (GoError F)) → String → Handler F → Handler F
  localizer_handle parse_accept_language header next ctx =
      let (locales, err) = parse_accept_language header in
      log_parse_error err >> next (with_first locales ctx)

-- ===== src/ExceptionHandler/Laws.antt =====
-- Which response the handler gives, and what it reports.
use kit_legacy.Base.{
  suc, ℤ, pos, String, leb_ℤ, same_text, ◌≡◌, refl, ap, ◌∙◌, Bool, true, false, Option, none, some,
  is_some, ◌&&◌, List, [], ◌∷◌, if◌then◌else◌, arith,
}
use kit_legacy.Errors.Value.{GoError, foreign, ErrorsLib}
use kit_legacy.Errors.Exception.{new_exception, Exception, to_error, cause, redact, marshal_json}
use kit_legacy.World.Event.{Any, Event, World}
use kit_legacy.World.Action.{bind-returned, returned, pure, when, ◌>>=◌}
use kit_legacy.Observe.Level.{lvl_error, ◌>=◌}
use kit_legacy.Observe.Logger
use kit_legacy.Observe.Observer.{Observer, log_error, at_level, report, send_err_to_sentry}
use kit_legacy.Observe.Observer.Reports.{captures, log_error_reports}
use kit_legacy.ExceptionHandler.{
  ExceptionHandler, EchoEnv, Exchange, env_development, exception_for, choose, shown, respond,
  cannot_return, report_failure, handle_exception, handle,
}

-- The responses of a trace: the status, and the fields of the body if it has one.
unfoldable pub responses : {F : Type 0} → World F → List (ℤ × Option (List (String × String)))
responses [] = []
responses (Event.responded_no_content status r ∷ w) = (status, none) ∷ responses w
responses (Event.responded_json status body r ∷ w) = (status, some body) ∷ responses w
responses (_ ∷ w) = responses w

-- The body without the message, unless in development.
abbrev pub body_of : {F : Type 0} → ExceptionHandler → Exception F → List (String × String)
body_of self exc =
    if same_text self.environment env_development
    then marshal_json exc
    else (("code", exc.code) ∷ [])

module _ {F : Type 0} ⦃lib : ErrorsLib F⦄ where
  log_error-responses :
      (observer : Observer) (err : GoError F) (w : World F)
      → ((log_error observer (Any.an_error err ∷ []) w).0 ≡ returned tt)
        × (responses (log_error observer (Any.an_error err ∷ []) w).1 ≡ responses w)
  unfolding log_error at_level Logger.log_error Logger.print_debug_error report send_err_to_sentry
      responses
  log_error-responses observer (foreign f) w = ground arith
  log_error-responses observer (GoError.error inner identifier message) w = ground arith
  log_error-responses observer (GoError.exception inner identifier code message status) w =
      ground arith

  report_failure-responses :
      (self : ExceptionHandler) (exc : Exception F) (err : Option (GoError F)) (w : World F)
      → ((report_failure self exc err w).0 ≡ returned tt)
        × (responses (report_failure self exc err w).1 ≡ responses w)
  unfolding report_failure
  report_failure-responses self exc none w = (refl, refl)
  report_failure-responses self exc (some err) w =
      log_error-responses self.observer (cannot_return exc err) w

  shown-body :
      (self : ExceptionHandler) (exc : Exception F)
      → marshal_json (shown self exc) ≡ body_of self exc
  unfolding shown marshal_json redact
  shown-body self exc =
      elim (same_text self.environment env_development)
        as (λ b.
          marshal_json (if b then exc else redact exc)
          ≡ (if b then marshal_json exc else (("code", exc.code) ∷ []))) [
            | true ↦ refl
            | false ↦ refl
          ]

module _ {F : Type 0} ⦃lib : ErrorsLib F⦄ (env : EchoEnv F) where
  respond-responses :
      (self : ExceptionHandler) (is_head : Bool) (exc : Exception F) (w : World F)
      → (r : Option (GoError F)) × ((respond env self is_head exc w).0 ≡ returned r)
        × (responses (respond env self is_head exc w).1
            ≡ (exc.status, (if is_head then none else some (body_of self exc))) ∷ responses w)
  unfolding respond responses
  respond-responses self true exc w = (env.no_content w, refl, refl)
  respond-responses self false exc w =
      (env.json w, refl, ap (λ body. (exc.status, some body) ∷ responses w) (shown-body self exc))

  logged_responses :
      (self : ExceptionHandler) (exc : Exception F) (b : Bool) (w : World F)
      → let y = when b (log_error self.observer (Any.an_error (to_error exc) ∷ [])) w in
        (y.0 ≡ returned tt) × (responses y.1 ≡ responses w)
  logged_responses self exc true w = log_error-responses self.observer (to_error exc) w
  logged_responses self exc false w = (refl, refl)

  handle_exception-responses :
      (self : ExceptionHandler) (is_head : Bool) (exc : Exception F) (w : World F)
      → ((handle_exception env self is_head exc w).0 ≡ returned tt)
        × (responses (handle_exception env self is_head exc w).1
            ≡ (exc.status, (if is_head then none else some (body_of self exc))) ∷ responses w)
  unfolding handle_exception
  handle_exception-responses self is_head exc w =
      let first =
        when (leb_ℤ (pos 500) exc.status)
          (log_error self.observer (Any.an_error (to_error exc) ∷ [])) in
      let (e₁, same) = logged_responses self exc (leb_ℤ (pos 500) exc.status) w in
      let (reply, e₂, given) = respond-responses self is_head exc (first w).1 in
      let (e₃, rest) =
        report_failure-responses self exc reply (respond env self is_head exc (first w).1).1 in
      let course =
        bind-returned first (λ _. respond env self is_head exc >>= report_failure self exc) w tt e₁
        ∙ bind-returned (respond env self is_head exc) (report_failure self exc) (first w).1 reply
            e₂ in
      (
        ap (λ y. y.0) course ∙ e₃,
        ap (λ y. responses y.1) course
            ∙ rest
            ∙ given
            ∙ ap
                (λ before.
                  (exc.status, (if is_head then none else some (body_of self exc))) ∷ before)
                same,
      )

  -- The handler returns; on a committed response it makes no call, and on any other it gives exactly one
  -- response, with the status of the exception chosen for the error, without a body to a HEAD request, and
  -- without the exception's message unless in development.
  pub handle_responds :
      (self : ExceptionHandler) (err : GoError F) (exchange : Exchange) (w : World F)
      → ((handle env self err exchange w).0 ≡ returned tt)
        × (exchange.committed ≡ true → (handle env self err exchange w).1 ≡ w)
        × (exchange.committed ≡ false
            → responses (handle env self err exchange w).1
              ≡ (
                (choose env err).status,
                (if exchange.is_head then none else some (body_of self (choose env err))),
              )
                ∷ responses w)
  unfolding handle
  handle_responds self err exchange w =
      ground (arith, handle_exception-responses self exchange.is_head (choose env err) w)

  -- The code of the first entry for the value.
  abbrev pub code_for : List (F × String) → F → String
  code_for [] f = "ERR_SERVER_GENERIC"
  code_for ((g, code) ∷ entries) f = if lib.same g f then code else code_for entries f

  abbrev pub codes_of_echo : List (F × String)
  codes_of_echo =
      (env.err_not_found, "ERR_NOT_FOUND")
      ∷ (env.err_method_not_allowed, "ERR_INVALID_REQUEST")
      ∷ (env.err_request_entity_too_large, "ERR_INVALID_REQUEST")
      ∷ (env.err_handler_timeout, "ERR_REQUEST_TIMEOUT")
      ∷ []

  -- An exception is chosen for itself; an error of another package by its value, with the table of the
  -- code; any error of kit is a generic server exception, of status 500.
  pub choose_lem :
      ((exc : Exception F) → choose env (to_error exc) ≡ exc)
      × ((f : F) → (choose env (foreign f)).code ≡ code_for codes_of_echo f)
      × ((inner : GoError F) (identifier message : String)
          → let exc = choose env (GoError.error inner identifier message) in
            (exc.code ≡ "ERR_SERVER_GENERIC") × (exc.status ≡ pos 500))
  unfolding choose exception_for cause new_exception
  choose_lem = (λ exc. refl, λ f. ground arith, λ inner identifier message. (refl, refl))

  logged_captures :
      (self : ExceptionHandler) (exc : Exception F) (b : Bool) (w : World F)
      → lvl_error >= self.observer.config.level ≡ true
      → captures (when b (log_error self.observer (Any.an_error (to_error exc) ∷ [])) w).1
        ≡ (if b && is_some self.observer.config.sentry_config then suc (captures w) else captures w)
  logged_captures self exc true w logs =
      (log_error_reports self.observer (to_error exc) [] w logs).1
  logged_captures self exc false w logs = refl

  respond-captures :
      (self : ExceptionHandler) (is_head : Bool) (exc : Exception F) (w : World F)
      → env.json w ≡ none
      → env.no_content w ≡ none
      → ((respond env self is_head exc w).0 ≡ returned none)
        × (captures (respond env self is_head exc w).1 ≡ captures w)
  unfolding respond captures
  respond-captures self true exc w json no_content = (ap returned no_content, refl)
  respond-captures self false exc w json no_content = (ap returned json, refl)

  -- With an observer that logs errors and a response that is accepted, an exception is reported to
  -- Sentry, where it is configured, exactly when its status is 500 or above.
  pub handle_reports :
      (self : ExceptionHandler) (err : GoError F) (exchange : Exchange) (w : World F)
      → exchange.committed ≡ false
      → lvl_error >= self.observer.config.level ≡ true
      → ((w' : World F) → env.json w' ≡ none)
      → ((w' : World F) → env.no_content w' ≡ none)
      → captures (handle env self err exchange w).1 ≡ (
          if leb_ℤ (pos 500) (choose env err).status && is_some self.observer.config.sentry_config
          then suc (captures w)
          else captures w)
  unfolding handle handle_exception report_failure
  handle_reports self err exchange w fresh logs json no_content =
      let exc = choose env err in
      let is_server = leb_ℤ (pos 500) exc.status in
      let first = when is_server (log_error self.observer (Any.an_error (to_error exc) ∷ [])) in
      let (e₁, same) = logged_responses self exc is_server w in
      let (e₂, kept) =
        respond-captures self exchange.is_head exc (first w).1 (json (first w).1)
          (no_content (first w).1) in
      let course =
        bind-returned first (λ _. respond env self exchange.is_head exc >>= report_failure self exc)
          w tt e₁
        ∙ bind-returned (respond env self exchange.is_head exc) (report_failure self exc)
            (first w).1 none e₂ in
      ap
        (λ committed.
          captures
            ((if committed then pure tt else handle_exception env self exchange.is_head exc) w).1)
        fresh
      ∙ ap (λ y. captures y.1) course
      ∙ kept
      ∙ logged_captures self exc is_server w logs

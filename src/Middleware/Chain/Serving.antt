-- ===== src/Middleware/Chain/Serving.antt =====
-- A server of server.go with the recover and the exception middleware in use: what a request gets.
use kit_legacy.Base.{◌≡◌, sym, subst, ap, ◌∙◌, Bool, [], ◌∷◌}
use kit_legacy.Errors.Value.{ErrorsLib}
use kit_legacy.World.Event.{World}
use kit_legacy.World.Action.{Action, ◌>>=◌}
use kit_legacy.World.Context.{Context}
use kit_legacy.ExceptionHandler.{ExceptionHandler, EchoEnv}
use kit_legacy.Middleware.Chain.{Handler, recover_handle, exception_handle}
use kit_legacy.Middleware.Chain.Pipeline.{on_trace, server_error, serve, Served, serve-Served}
use kit_legacy.Services.Construct.{BodyLimit, ServerOptions, ServerSettings, new_server}
use kit_legacy.Services.Routing.{
  EchoLib, new_echo, used, all_limited, all_around, used_in_order, around,
}

module _ {F : Type 0} ⦃lib : ErrorsLib F⦄ (env : EchoEnv F) (exceptions : ExceptionHandler)
    (is_head : Bool) {E : Type 0} (echo : EchoLib (Handler F))
    (limiter : BodyLimit → Handler F → Handler F) (hook : Handler F → Handler F) where
  -- `NewServer`, and two calls of `Use`.
  unfoldable pub guarded_server : ServerSettings E → echo.Echo
  guarded_server settings =
      used echo
        ((recover_handle env exceptions (on_trace is_head) ∷ [])
          ∷ (exception_handle env exceptions (on_trace is_head) ∷ [])
          ∷ [])
        (new_echo echo limiter hook settings)

  -- A request to the server: what is in front of the router runs, and its error goes to the error handler.
  unfoldable pub request : ServerSettings E → Handler F → Context F → Action F (Unit {0})
  request settings router ctx =
      echo.served (guarded_server settings) router ctx >>= server_error env exceptions is_head

  -- A request to a new server that uses the recover and then the exception middleware, where the limits of
  -- its body and the hook that sets the address let it pass: if the router returns an error, or panics
  -- with another value than ErrAbortHandler, it is answered by one response, that of the error or the value, unless
  -- one was given before; if the router returns nil, aborts or ends the process no response is added.
  pub request-Served :
      (real_ip : E) (given : ServerOptions E) (router : Handler F) (ctx : Context F) (w : World F)
      → ((h : Handler F)
          → all_limited echo limiter (new_server real_ip given).body_limits (hook h) ctx w
            ≡ h ctx w)
      → Served env exceptions is_head
          (router ctx w).0
          (router ctx w).1
          (request (new_server real_ip given) router ctx w)
  unfolding request guarded_server serve all_around around
  request-Served real_ip given router ctx w passes =
      let settings = new_server real_ip given in
      let guarded =
        recover_handle env exceptions (on_trace is_head)
          (exception_handle env exceptions (on_trace is_head) router) in
      let course =
        ap (λ h. h ctx w) (used_in_order echo limiter hook settings _ router) ∙ passes guarded in
      subst (Served env exceptions is_head (router ctx w).0 (router ctx w).1)
        (sym (ap (λ y. ((λ _. y) >>= server_error env exceptions is_head) w) course))
        (serve-Served env exceptions is_head router ctx w)

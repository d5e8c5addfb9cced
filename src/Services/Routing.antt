-- ===== src/Services/Routing.antt =====
-- What server.go and worker.go hand on to echo's router and to asynq's mux: the middlewares that NewServer
-- puts in front, `Use`, `Host` and `Default` of the server, and `Use` and `Register` of the worker.
use kit_legacy.Base.{String, ◌≡◌, refl, ◌∙◌, Option, List, [], ◌∷◌}
use kit_legacy.Services.Construct.{BodyLimit, ServerSettings}

-- The middlewares around a handler, the first one outermost.
unfoldable pub around : {H : Type 0} → List (H → H) → H → H
around [] h = h
around (m ∷ ms) h = m (around ms h)

-- github.com/labstack/echo: an application, what it calls in front of its router, and the groups of
-- routes. The middlewares of `Pre` run in the order in which they were given.
pub record EchoLib (H : Type 0) : Type 1 where
  pub Echo : Type 0
  pub Group : Type 0
  pub new : Echo
  pub pre : Echo → List (H → H) → Echo
  pub host : Echo → String → List (H → H) → Echo × Group
  pub group : Echo → String → List (H → H) → Echo × Group
  pub served : Echo → H → H
  pub served-new : (h : H) → served new h ≡ h
  pub served-pre :
      (app : Echo) (ms : List (H → H)) (h : H) → served (pre app ms) h ≡ served app (around ms h)

module _ {H : Type 0} (echo : EchoLib H) where
  -- `Server.Use`
  unfoldable pub server_use : echo.Echo → List (H → H) → echo.Echo
  server_use server middleware = echo.pre server middleware

  -- `Server.Host`
  unfoldable pub host : echo.Echo → String → List (H → H) → echo.Echo × echo.Group
  host server name middleware = echo.host server name middleware

  -- `Server.Default`
  unfoldable pub default : echo.Echo → List (H → H) → echo.Echo × echo.Group
  default server middleware = echo.group server "" middleware

  -- The calls of `Pre` in NewServer. `limiter` is echo's middleware with a limit of a body, and `hook` the
  -- function that sets the address.
  unfoldable pub in_front : (BodyLimit → H → H) → (H → H) → List BodyLimit → echo.Echo → echo.Echo
  in_front limiter hook [] server = echo.pre server (hook ∷ [])
  in_front limiter hook (limit ∷ limits) server =
      in_front limiter hook limits (echo.pre server (limiter limit ∷ []))

  unfoldable pub new_echo :
      {E : Type 0} → (BodyLimit → H → H) → (H → H) → ServerSettings E → echo.Echo
  new_echo limiter hook settings = in_front limiter hook settings.body_limits echo.new

  -- Some calls of `Use`, one after another.
  unfoldable pub used : List (List (H → H)) → echo.Echo → echo.Echo
  used [] server = server
  used (middleware ∷ calls) server = used calls (server_use server middleware)

  unfoldable pub all_around : List (List (H → H)) → H → H
  all_around [] h = h
  all_around (middleware ∷ calls) h = around middleware (all_around calls h)

  used_lem :
      (calls : List (List (H → H))) (server : echo.Echo) (h : H)
      → echo.served (used calls server) h ≡ echo.served server (all_around calls h)
  unfolding used server_use all_around
  used_lem [] server h = refl
  used_lem (middleware ∷ calls) server h =
      used_lem calls (echo.pre server middleware) h
      ∙ echo.served-pre server middleware (all_around calls h)

  -- A handler behind the limits of a body.
  unfoldable pub all_limited : (BodyLimit → H → H) → List BodyLimit → H → H
  all_limited limiter [] h = h
  all_limited limiter (limit ∷ limits) h = limiter limit (all_limited limiter limits h)

  in_front_lem :
      (limiter : BodyLimit → H → H) (hook : H → H) (limits : List BodyLimit) (server : echo.Echo)
      (h : H)
      → echo.served (in_front limiter hook limits server) h
        ≡ echo.served server (all_limited limiter limits (hook h))
  unfolding in_front around all_limited
  in_front_lem limiter hook [] server h = echo.served-pre server (hook ∷ []) h
  in_front_lem limiter hook (limit ∷ limits) server h =
      in_front_lem limiter hook limits (echo.pre server (limiter limit ∷ [])) h
      ∙ echo.served-pre server (limiter limit ∷ []) (all_limited limiter limits (hook h))

  -- A request to a new server, behind any calls of `Use`: the limits of a body come first, in their order,
  -- then the hook that sets the address, then the middlewares that were used, in the order of the calls
  -- and of their arguments, and last the router.
  pub used_in_order :
      {E : Type 0} (limiter : BodyLimit → H → H) (hook : H → H) (settings : ServerSettings E)
      (calls : List (List (H → H))) (router : H)
      → echo.served (used calls (new_echo limiter hook settings)) router
        ≡ all_limited limiter settings.body_limits (hook (all_around calls router))
  unfolding new_echo
  used_in_order limiter hook settings calls router =
      used_lem calls (new_echo limiter hook settings) router
      ∙ in_front_lem limiter hook settings.body_limits echo.new (all_around calls router)
      ∙ echo.served-new _

-- asynq's mux: `HandleFunc` panics where there is a handler of the task, or none is given.
pub record MuxLib (M H : Type 0) : Type 1 where
  pub Mux : Type 0
  pub add_middleware : Mux → List M → Mux
  pub handle_func : Mux → String → H → Option Mux

module _ {M H : Type 0} (asynq : MuxLib M H) where
  -- `Worker.Use`
  unfoldable pub worker_use : asynq.Mux → List M → asynq.Mux
  worker_use mux middleware = asynq.add_middleware mux middleware

  -- `Worker.Register`; none is a panic.
  unfoldable pub register : asynq.Mux → String → H → Option asynq.Mux
  register mux task handler = asynq.handle_func mux task handler

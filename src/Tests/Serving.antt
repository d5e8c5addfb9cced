-- ===== src/Tests/Serving.antt =====
-- A server over a small application of echo.
use kit_legacy.Base.{pos, String, ◌≡◌, refl, ap, false, none, List, [], ◌∷◌, ◌++◌}
use kit_legacy.World.Event.{Any}
use kit_legacy.World.Action.{returned, panicked}
use kit_legacy.ExceptionHandler.Laws.{responses}
use kit_legacy.Middleware.Chain.{Handler, recovered_error}
use kit_legacy.Middleware.Chain.Pipeline.{with_answer}
use kit_legacy.Middleware.Chain.Serving.{request, request-Served}
use kit_legacy.Services.Construct.{ServerOptions, new_server}
use kit_legacy.Services.Routing.{EchoLib, around, all_limited}
use kit_legacy.Tests.Libs.{plain_errors}
use kit_legacy.Tests.Utils.{background}
use kit_legacy.Tests.Server.{echo, production}

around-append :
    {H : Type 0} (ms ms' : List (H → H)) (h : H) → around (ms ++ ms') h ≡ around ms (around ms' h)
unfolding around
around-append [] ms' h = refl
around-append (m ∷ ms) ms' h = ap m (around-append ms ms' h)

-- An application is the middlewares that it was given.
abbrev listed : {H : Type 0} → EchoLib H
unfolding around
listed {H} = record {
  Echo = List (H → H);
  Group = List (H → H);
  new = [];
  pre = λ app ms. app ++ ms;
  host = λ app name ms. (app, ms);
  group = λ app name ms. (app, ms);
  served = around;
  served-new = λ h. refl;
  served-pre = around-append;
}

abbrev options : ServerOptions String
options = record {
  environment = "prod";
  app_port = pos 8080;
  request_header_max_size = none;
  request_body_max_size = none;
  request_file_max_size = none;
  request_keep_alive_timeout = none;
  request_read_timeout = none;
  request_read_header_timeout = none;
  request_ip_extractor = none;
  response_write_timeout = none;
}

abbrev lost : Handler String
lost c w = (panicked (Any.a_string "lost"), w)

-- A router that panics behind no response, in front of which nothing stands in the way.
request-Served_example :
    let y =
      request echo production false listed
        (λ limit h. h)
        (λ h. h)
        (new_server "X-Real-Ip" options)
        lost
        background
        [] in
    (y.0 ≡ returned tt)
    × (responses y.1 ≡ with_answer echo production false (recovered_error (Any.a_string "lost")) [])
unfolding recovered_error all_limited new_server
request-Served_example =
    request-Served echo production false listed (λ limit h. h) (λ h. h) "X-Real-Ip" options lost
      background [] (λ h. refl)

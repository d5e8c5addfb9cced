-- ===== src/Tests/Server.antt =====
-- The exception handler, the middlewares on it and the localizer on small inputs.
use kit_legacy.Base.{
  ◌⊎◌, ◌↔◌, pos, codes, ◌&◌, has_extension, String, ◌≡◌, refl, true, false, Option, none, some,
  List, [], ◌∷◌,
}
use kit_legacy.Errors.Value.{GoError, foreign}
use kit_legacy.Errors.Exception.{cause, new_exception}
use kit_legacy.World.Event.{Any, Event, World}
use kit_legacy.World.Action.{Outcome, returned, panicked, ◌>>◌}
use kit_legacy.World.Context.{Context}
use kit_legacy.Observe.Level.{lvl_info}
use kit_legacy.Observe.Observer.Reports.{captures}
use kit_legacy.ExceptionHandler.{
  left, ExceptionHandler, EchoEnv, Exchange, choose, exception_for, handle,
}
use kit_legacy.ExceptionHandler.Laws.{responses, handle_responds, handle_reports, choose_lem}
use kit_legacy.Middleware.Chain.Pipeline.{serve, with_answer, serve-Served}
use kit_legacy.Middleware.Chain.Localizing.{preferred, localizer_handle-Localizes}
use kit_legacy.Middleware.Chain.{
  log_parse_error, localizer_handle, exception_handle, recover_handle, recovered_error, Response,
}
use kit_legacy.Middleware.Chain.Laws.{Answers, exception_handle-Answers, recover_handle-Answers}
use kit_legacy.Errors.Error
use kit_legacy.Errors.Builtin.{err_localizer_generic}
use kit_legacy.Localizer.{
  is_match, walk_failed, CopiesByLang, Copies, Entry, Localizer, visit, load, walk, lookup, set,
  refresh, localize, set_locale,
}
use kit_legacy.Localizer.Laws.{refreshed_lem, localize_loaded}
use kit_legacy.Observe.Observer
use kit_legacy.Errors.Builtin.{err_enqueuer_generic}
use kit_legacy.Services.{ServiceEnv, enqueue, worker_run, generic, start_error}
use kit_legacy.Services.Laws.{taken, enqueue_lem, worker_run_lem}
use kit_legacy.Tests.Libs.{plain_errors}
use kit_legacy.Tests.Utils.{background}
use kit_legacy.Tests.Observe.{observer_at}

abbrev pub echo : EchoEnv String
echo = record {
  err_not_found = "Not Found";
  err_method_not_allowed = "Method Not Allowed";
  err_request_entity_too_large = "Request Entity Too Large";
  err_handler_timeout = "http: Handler timeout";
  err_abort_handler = "net/http: abort Handler";
  no_content = λ w. none;
  json = λ w. none;
}

abbrev pub production : ExceptionHandler
production = record { environment = "prod"; observer = observer_at lvl_info }

abbrev fresh : Exchange
fresh = record { committed = false; is_head = false }

handle_course :
    responses (handle echo production (foreign "Not Found") fresh []).1
    ≡ (pos 404, some (("code", "ERR_NOT_FOUND") ∷ [])) ∷ []
unfolding choose exception_for cause new_exception responses
handle_course = (handle_responds echo production (foreign "Not Found") fresh []).2 refl

choose_table : (choose echo (foreign "http: Handler timeout")).code ≡ "ERR_REQUEST_TIMEOUT"
choose_table = (choose_lem echo).1 "http: Handler timeout"

reports_course : captures (handle echo production (foreign "refused") fresh []).1 ≡ 1
unfolding choose exception_for cause new_exception captures
reports_course =
    handle_reports echo production (foreign "refused") fresh [] refl refl (λ w. refl) (λ w. refl)

abbrev response : Response String
response w = fresh

abbrev refuses :
    Context String → World String → Outcome String (Option (GoError String)) × World String
refuses ctx w = (returned (some (foreign "Not Found")), Event.called true ∷ w)

exception_handle_course :
    let y = exception_handle echo production response refuses background [] in
    (y.0 ≡ returned (some (foreign "Not Found")))
    × Answers echo production response (foreign "Not Found") (Event.called true ∷ []) y.1
unfolding left
exception_handle_course =
    exception_handle-Answers echo production response refuses background [] (Event.called true ∷ [])
      (foreign "Not Found") refl

abbrev breaks :
    Context String → World String → Outcome String (Option (GoError String)) × World String
breaks ctx w = (panicked (Any.a_string "broken"), Event.called true ∷ w)

recover_handle_course :
    let y = recover_handle echo production response breaks background [] in
    (y.0 ≡ returned none)
    × Answers echo production response
        (recovered_error (Any.a_string "broken"))
        (Event.called true ∷ [])
        y.1
unfolding recovered_error
recover_handle_course =
    (recover_handle-Answers echo production response breaks background [] (Event.called true ∷ [])
        (Any.a_string "broken") refl).1
      refl

abbrev file : String → Copies → Entry String
file lang copies = record {
  walk_error = none;
  is_dir = false;
  name = codes (lang & ".yml");
  lang = some lang;
  read_error = none;
  decode_error = none;
  copies = copies;
}

abbrev files : List (Entry String)
files =
    file "en" (("HELLO", "Hi") ∷ [])
    ∷ record (file "" []) { is_dir = true }
    ∷ file "es" (("HELLO", "Hola") ∷ [])
    ∷ file "en" (("HELLO", "Hello") ∷ [])
    ∷ []

abbrev localizer : Localizer
localizer = record { observer = observer_at lvl_info; default_locale = "en"; copies = [] }

refreshed_course :
    (refresh localizer (record (file "es" []) { read_error = some (foreign "gone") } ∷ []) []).0
    ≡ returned (
      localizer,
      some (
          Error.to_error (
            Error.wrap err_localizer_generic (
              some (
                Error.to_error (
                  Error.wrap err_localizer_generic (
                    some (
                      Error.to_error
                        (Error.wrap_as err_localizer_generic (some (foreign "gone")))))))))),
    )
unfolding walk visit load walk_failed is_match has_extension
refreshed_course =
    (refreshed_lem localizer (record (file "es" []) { read_error = some (foreign "gone") } ∷ [])
        []).0
      (Error.to_error (Error.wrap_as err_localizer_generic (some (foreign "gone")))) refl

abbrev loaded : CopiesByLang
loaded = ("en", ("HELLO", "Hello") ∷ []) ∷ ("es", ("HELLO", "Hola") ∷ []) ∷ []

missing_locale_test :
    localize
      (λ key. "HELLO")
      (λ trans. trans)
      (record localizer { copies = loaded })
      (set_locale background "fr")
      "hello"
    ≡ "Hello"
unfolding walk visit load set lookup is_match has_extension
missing_locale_test =
    localize_loaded (λ key. "HELLO") (λ trans. trans) localizer files loaded background "fr" "hello"
      refl

-- A header that cannot be parsed, on a request without a locale.
abbrev no_header : String → List String × Option (GoError String)
no_header header = ([], some (foreign "malformed"))

localizer_handle-Localizes_example :
    localizer_handle
      (observer_at lvl_info)
      no_header
      ";"
      (λ c w. (
        returned (
            some (
              foreign (
                localize
                  (λ key. "HELLO")
                  (λ trans. trans)
                  (record localizer { copies = loaded })
                  c
                  "hello"))),
        w,
      ))
      background
    ≡ (log_parse_error (observer_at lvl_info) (some (foreign "malformed"))
        >> (λ w. (returned (some (foreign "Hello")), w)))
unfolding walk visit load set lookup preferred is_match has_extension
localizer_handle-Localizes_example =
    localizer_handle-Localizes (observer_at lvl_info) no_header (λ key. "HELLO") (λ trans. trans)
      localizer files loaded ";" "hello" (λ text w. (returned (some (foreign text)), w)) background
      refl

abbrev services : ServiceEnv String
services = record {
  marshal = none;
  enqueue_context = λ w. none;
  task_info = "mail on queue default with id 1";
  close_client = λ w. none;
  start = λ w. some (foreign "closed");
  start_scheduler = λ w. none;
  shutdown = λ w. none;
  err_server_closed = "closed";
}

enqueue_lem_test :
    let y = enqueue (observer_at lvl_info) services "mail" [] in
    ((y.0 ≡ returned none) × (taken y.1 ≡ "mail" ∷ []))
    ⊎ ((err : GoError String) × ((services.marshal ≡ some err)
          ⊎ (services.enqueue_context [] ≡ some err))
        × (y.0 ≡ returned (generic err_enqueuer_generic err))
        × (taken y.1 ≡ []))
unfolding taken
enqueue_lem_test = enqueue_lem (observer_at lvl_info) services "mail" []

worker_run_course :
    let logged =
      (Observer.infof {F = String}
        (observer_at lvl_info)
        "Worker started with queues map[default:1]"
        []).1 in
    let next = Event.started "worker" (some (foreign "closed")) ∷ logged in
    let y = worker_run (observer_at lvl_info) services "map[default:1]" [] in
    (y.1 ≡ Event.started "scheduler" none ∷ next)
    × ((y.0 ≡ returned none) ↔ (services.start_scheduler next ≡ none))
unfolding start_error
worker_run_course = (worker_run_lem (observer_at lvl_info) services "map[default:1]" []).0 refl

-- A handler that panics behind no response.
serve_course :
    let y =
      serve echo production false (λ c w. (panicked (Any.a_string "lost"), w)) background [] in
    (y.0 ≡ returned tt)
    × (responses y.1 ≡ with_answer echo production false (recovered_error (Any.a_string "lost")) [])
unfolding recovered_error
serve_course =
    serve-Served echo production false (λ c w. (panicked (Any.a_string "lost"), w)) background []

extensions_test :
    (is_match (file "en" []) ≡ true)
    × (is_match (record (file "en" []) { name = codes "en.yaml.bak" }) ≡ false)
    × (is_match (record (file "en" []) { name = codes "yml" }) ≡ false)
unfolding is_match has_extension
extensions_test = (refl, refl, refl)

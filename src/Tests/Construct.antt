-- ===== src/Tests/Construct.antt =====
-- Constructors against a service that does not answer, a scheduler, and traces.
use kit_legacy.Base.{
  arith, ℕ, pos, String, ◌&◌, ◌≡◌, refl, true, false, inr, Option, none, some, [], ◌∷◌, ltb,
  if◌then◌else◌, negsuc,
}
use kit_legacy.Errors.Value.{GoError, foreign, error_text}
use kit_legacy.Errors.Builtin.{err_cache_generic, err_cache_timed_out}
use kit_legacy.World.Event.{Any, Event, World}
use kit_legacy.World.Action.{returned, panicked, Fallible}
use kit_legacy.World.Context.{Context}
use kit_legacy.Utils.Deadline.Laws.{Settles}
use kit_legacy.Observe.Level.{lvl_info, lvl_error, lvl_none, ◌>=◌}
use kit_legacy.Observe.Observer.Traces.{TraceEnv}
use kit_legacy.Connect.{RetryConfig, retry_or_default, connect}
use kit_legacy.Connect.Attempts.{Course, Returning, connect_lem}
use kit_legacy.Database.Construct.{
  DatabaseOptions, PoolEnv, PgxLevel, capped, k_level_to_p_level, new_database, pool_config,
  with_defaults,
}
use kit_legacy.Database.Connecting.{Unanswered, Abandons, new_database-Abandons}
use kit_legacy.Services.Laws.{taken}
use kit_legacy.Services.Tasks.{schedule}
use kit_legacy.Services.Tasks.Registering.{panic_text, schedule_lem}
use kit_legacy.Middleware.Observer.{Request, RequestView, TaskView, handle_request, handle_task}
use kit_legacy.Middleware.Observer.Spans.{Even, Wraps, handlers-Wraps}
use kit_legacy.Tests.Libs.{plain_errors, patient_timer, plain_retrier, plain_zerolog}
use kit_legacy.Tests.Utils.{background}
use kit_legacy.Tests.Observe.{observer_at}

abbrev twice : RetryConfig
twice = record { attempts = pos 2; initial_delay = pos 0; limit_delay = pos 0 }

-- the second attempt succeeds
abbrev second_time : ℕ → Fallible String
second_time attempt w = (
  returned (if ltb attempt 2 then some (foreign "refused") else none),
  Event.attempted (pos attempt) ∷ w,
)

second_time-Returning : Returning second_time
second_time-Returning k w = (_, refl)

connect_lem_example :
    (last : ℕ) × (before : World String) × (r result : Option (GoError String)) × Course second_time
      1 1 [] last before r
    × Settles none err_cache_timed_out err_cache_generic r result
    × (connect background twice err_cache_timed_out err_cache_generic second_time []
        ≡ (returned result, (second_time last before).1))
connect_lem_example =
    connect_lem background twice err_cache_timed_out err_cache_generic second_time 1 [] refl
      second_time-Returning

abbrev pub shop : DatabaseOptions
shop = record {
  database_host = "localhost";
  database_port = pos 5432;
  database_ssl_mode = "disable";
  database_user = "root";
  database_password = "secret";
  database_name = "shop";
  app_name = "app";
  database_min_conns = none;
  database_max_conns = some (pos 4);
  database_max_conn_idle_time = none;
  database_max_conn_life_time = none;
}

-- a server that accepts connections and answers no ping
abbrev mute : PoolEnv String
mute = record {
  parse_config = λ source. inr [];
  connect_config = λ config w. none;
  ping = λ w. some (foreign "closed");
}

mute-Unanswered : Unanswered mute (pool_config (observer_at lvl_error) (with_defaults 2 shop) [])
mute-Unanswered w = (refl, (foreign "closed", refl))

twice_test : (retry_or_default (some twice)).attempts ≡ pos 2
unfolding retry_or_default
twice_test = refl

new_database-Abandons_example :
    Abandons 2 [] (new_database mute background (observer_at lvl_error) 2 shop (some twice) [])
new_database-Abandons_example =
    new_database-Abandons mute background (observer_at lvl_error) 2 shop (some twice) [] 1 [] refl
      twice_test mute-Unanswered

-- Of the levels of kit, only the warning's is passed on beside the error's.
capped_test :
    (capped (k_level_to_p_level lvl_info) ≡ PgxLevel.error)
    × (capped (k_level_to_p_level (negsuc 1)) ≡ PgxLevel.warn)
unfolding capped k_level_to_p_level
capped_test = (refl, refl)

schedule_lem_example :
    ((lvl_error >= lvl_none) ≡ true
      → ((schedule {F = String}
            (some (foreign "chan"))
            (λ w. none)
            (observer_at lvl_none)
            "mail"
            []).0
          ≡ panicked (
              Any.a_string (
                panic_text
                  (observer_at lvl_none)
                  ("mail" & ": " & error_text {F = String} (foreign "chan")))))
        × (taken
              (schedule {F = String}
                (some (foreign "chan"))
                (λ w. none)
                (observer_at lvl_none)
                "mail"
                []).1
            ≡ taken {F = String} []))
    × ((lvl_error >= lvl_none) ≡ false
        → schedule {F = String} (some (foreign "chan")) (λ w. none) (observer_at lvl_none) "mail" []
          ≡ (returned tt, Event.enqueued "mail" none ∷ []))
schedule_lem_example = schedule_lem (foreign "chan") (λ w. none) (observer_at lvl_none) "mail" []

abbrev pub traces : TraceEnv String
traces = record { fresh_id = λ w. "c1"; transaction = λ w. ""; from_string = λ raw. raw }

abbrev panics : Context String → Fallible String
panics ctx w = (panicked (Any.a_string "boom"), w)

panics-Even : Even panics
panics-Even ctx w = (tt, omega arith)

abbrev home : Request
home = record { request_uri = "/"; trace_header = "" }

abbrev pub view : RequestView String
view = record {
  has_hub = λ w. false;
  path = λ w. "/";
  host = λ w. "localhost";
  method = λ w. "GET";
  request_uri = λ w. "/";
  status = λ w. pos 200;
  remote_addr = λ w. "127.0.0.1";
  latency = λ w. "1";
}

abbrev pub task_view : TaskView String
task_view = record { queue_name = λ w. ""; latency = λ w. "1" }

handlers-Wraps_example :
    Wraps panics [] (handle_request (observer_at lvl_info) traces panics view home background [])
    × Wraps panics []
        (handle_task (observer_at lvl_info) traces panics task_view "mail" background [])
handlers-Wraps_example =
    handlers-Wraps (observer_at lvl_info) traces panics view task_view home "mail" background []
      panics-Even

-- ===== src/Tests/Logging.antt =====
-- A request and a task that are traced and logged.
use kit_legacy.Base.{String, ◌≡◌, Option, none, [], ◌∷◌}
use kit_legacy.Errors.Value.{GoError}
use kit_legacy.World.Event.{ZLevel, Event, World}
use kit_legacy.World.Action.{Outcome, returned}
use kit_legacy.World.Context.{Context}
use kit_legacy.Observe.Level.{lvl_info, lvl_warn}
use kit_legacy.Observe.Observer.{Observer, set_trace, get_trace}
use kit_legacy.Middleware.Observer.{
  Request, request_fields, task_fields, handle_request, handle_task,
}
use kit_legacy.Middleware.Observer.Lines.{lines, Logged}
use kit_legacy.Middleware.Observer.Logging.{handle_request-Logged, handle_task-Logged}
use kit_legacy.Tests.Utils.{background}
use kit_legacy.Tests.Observe.{observer_at}
use kit_legacy.Tests.Construct.{traces, view, task_view}

abbrev answers :
    Context String → World String → Outcome String (Option (GoError String)) × World String
answers ctx w = (returned none, w)

-- A request with a trace id of its caller.
abbrev traced : Request
traced = record { request_uri = "/"; trace_header = "c7" }

-- A task that comes without one.
task_course :
    (w1 : World String) × (lines w1 ≡ lines {F = String} [])
    × Logged
        (observer_at lvl_info).logger.threshold
        (task_fields task_view "mail" "c1")
        (answers (set_trace background "c1") w1)
        (handle_task (observer_at lvl_info) traces answers task_view "mail" background [])
unfolding get_trace
task_course =
    handle_task-Logged (observer_at lvl_info) traces answers task_view "mail" background []

-- An observer whose logger is above the level info: it writes nothing.
abbrev quiet : Observer
quiet = record (observer_at lvl_warn) {
  logger = record (observer_at lvl_warn).logger { threshold = ZLevel.warn };
}

quiet_course :
    (w1 : World String) × (lines w1 ≡ lines {F = String} [])
    × Logged ZLevel.warn
        (λ _. request_fields view "c7")
        (answers (set_trace background "c7") (Event.response_header_set "X-Trace-Id" "c7" ∷ w1))
        (handle_request quiet traces answers view traced background [])
quiet_course = handle_request-Logged quiet traces answers view traced background []

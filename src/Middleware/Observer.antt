-- ===== src/Middleware/Observer.antt =====
-- middleware/observer.go: the two handlers that trace and log a request and a task.
pub mod Spans
pub mod Lines
pub mod Logging
use kit_legacy.Base.{
  ℤ, show_ℤ, String, same_text, Bool, Option, none, some, List, [], ◌∷◌, if◌then◌else◌,
}
use kit_legacy.Errors.Value.{GoError}
use kit_legacy.World.Event.{Event, ZLevel, World}
use kit_legacy.World.Action.{
  Outcome, returned, panicked, exited, Action, Fallible, pure, emit, look, when, ◌>>=◌, ◌>>◌,
}
use kit_legacy.World.Context.{Context}
use kit_legacy.Observe.Observer.{Observer, get_trace}
use kit_legacy.Observe.Observer.Traces.{Traced, TraceEnv, trace_request, trace_task}

abbrev pub response_trace_id_header : String
response_trace_id_header = "X-Trace-Id"

-- What `TraceRequest` takes of the request.
pub record Request : Type 0 where
  pub request_uri : String
  -- the header `X-Trace-Id`
  pub trace_header : String

module _ {F : Type 0} where
  -- A deferred call: it runs however the function ends, and a panic goes on behind it. The end of the
  -- process runs nothing.
  unfoldable pub run_deferred :
      Action F (Unit {0})
      → Outcome F (Option (GoError F)) × World F
      → Outcome F (Option (GoError F)) × World F
  run_deferred at_end (returned result, w) = (at_end >> pure result) w
  run_deferred at_end (panicked v, w) = (at_end >> (λ w'. (panicked v, w'))) w
  run_deferred at_end (exited code, w) = (exited code, w)

  unfoldable pub deferring : Action F (Unit {0}) → Fallible F → Fallible F
  deferring at_end body w = run_deferred at_end (body w)

-- What the handlers read of the request and the response behind the next handler, of the task, and of the
-- clock. `has_hub` is whether the context of the request holds a Sentry hub, `path` the path that was
-- routed to, `latency` how zerolog prints the time since the start.
pub record RequestView (F : Type 0) : Type 0 where
  pub has_hub : World F → Bool
  pub path : World F → String
  pub host : World F → String
  pub method : World F → String
  pub request_uri : World F → String
  pub status : World F → ℤ
  pub remote_addr : World F → String
  pub latency : World F → String

-- `queue_name` is the field `qname` of the result writer of the task.
pub record TaskView (F : Type 0) : Type 0 where
  pub queue_name : World F → String
  pub latency : World F → String

unfoldable pub queue_of : String → String
queue_of name = if same_text name "" then "unknown" else name

module _ {F : Type 0} where
  unfoldable pub request_fields : RequestView F → String → World F → List (String × String)
  request_fields view trace_id w =
      ("host", view.host w)
      ∷ ("method", view.method w)
      ∷ ("path", view.request_uri w)
      ∷ ("status", show_ℤ (view.status w))
      ∷ ("ip_address", view.remote_addr w)
      ∷ ("latency", view.latency w)
      ∷ ("trace_id", trace_id)
      ∷ []

  unfoldable pub task_status : Option (GoError F) → String
  task_status none = "succeeded"
  task_status (some err) = "failed"

  unfoldable pub task_fields :
      TaskView F → String → String → Option (GoError F) → World F → List (String × String)
  task_fields view task trace_id err w =
      ("queue", queue_of (view.queue_name w))
      ∷ ("type", task)
      ∷ ("status", task_status err)
      ∷ ("latency", view.latency w)
      ∷ ("trace_id", trace_id)
      ∷ []

module _ {F : Type 0} (observer : Observer) where
  -- `self.observer.Logger.Logger().Info(). … .Msg("")`
  unfoldable pub log_fields : (World F → List (String × String)) → Action F (Unit {0})
  log_fields fields = do
    shown ← look fields
    emit (Event.logged_fields observer.logger.threshold shown)

  -- What follows the next handler of a request.
  unfoldable pub log_request : RequestView F → String → Option (GoError F) → Fallible F
  log_request view trace_id err = do
    hub ← look view.has_hub
    routed ← look view.path
    when hub (emit (Event.transaction_set routed))
    log_fields (request_fields view trace_id)
    pure err

  unfoldable pub log_task : TaskView F → String → String → Option (GoError F) → Fallible F
  log_task view task trace_id err = do log_fields (task_fields view task trace_id err); pure err

module _ {F : Type 0} (observer : Observer) (env : TraceEnv F) where
  -- The body behind `TraceRequest`. `next` is given the context of the trace.
  unfoldable pub traced_request : (Context F → Fallible F) → RequestView F → Context F → Fallible F
  traced_request next view ctx = do
    fresh ← look env.fresh_id
    let trace_id = get_trace ctx fresh
    emit (Event.response_header_set response_trace_id_header trace_id)
    err ← next ctx
    log_request observer view trace_id err

  unfoldable pub handle_request :
      (Context F → Fallible F) → RequestView F → Request → Context F → Fallible F
  handle_request next view request ctx = do
    traced ← trace_request observer env ctx request.request_uri request.trace_header
    deferring traced.1 (traced_request next view traced.0)

  unfoldable pub traced_task :
      (Context F → Fallible F) → TaskView F → String → Context F → Fallible F
  traced_task next view task ctx = do
    fresh ← look env.fresh_id
    let trace_id = get_trace ctx fresh
    err ← next ctx
    log_task observer view task trace_id err

  unfoldable pub handle_task :
      (Context F → Fallible F) → TaskView F → String → Context F → Fallible F
  handle_task next view task ctx = do
    traced ← trace_task observer env ctx task
    deferring traced.1 (traced_task next view task traced.0)

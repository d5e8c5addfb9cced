-- ===== src/Observe/Observer/Traces.antt =====
-- The `Trace…` methods of observer.go: the trace id of the context, and the spans of Sentry and Gilk
-- that they start, with the function that ends them.
use kit_legacy.Base.{String, same_text, Option, none, some, is_some, if◌then◌else◌}
use kit_legacy.World.Event.{Event, World}
use kit_legacy.World.Action.{Action, pure, emit, look, when, ◌>>=◌, ◌>>◌}
use kit_legacy.World.Context.{Context}
use kit_legacy.Observe.Observer.{Observer, set_trace, get_trace}

-- What a `Trace…` method returns: the context, and the function that ends what was started.
abbrev pub Traced : Type 0 → Type 0
Traced F = Context F × Action F (Unit {0})

-- The replies that the methods take: what `xid.New()` gives, and the transaction of the scope of the
-- Sentry hub, which the hub of the context or a clone of the current one holds.
pub record TraceEnv (F : Type 0) : Type 0 where
  pub fresh_id : World F → String
  pub transaction : World F → String
  -- `xid.FromString`, without its error: the nil id goes with one
  pub from_string : String → String

module _ {F : Type 0} (self : Observer) (env : TraceEnv F) where
  -- The part about Sentry: the tag, the transaction unless there is one, and the span.
  unfoldable pub start_span : String → String → String → Action F (Unit {0})
  start_span trace_id transaction name = when (is_some self.config.sentry_config) do
    emit (Event.tagged trace_id)
    current ← look env.transaction
    when (same_text current "") (emit (Event.transaction_set transaction))
    emit (Event.span_started name)

  -- `gilk.NewContext` and `gilk.NewQuery`, by the URI and the statement.
  unfoldable pub start_gilk : String → Action F (Unit {0})
  start_gilk name = when (is_some self.config.gilk_config) (emit (Event.gilk_started name))

module _ {F : Type 0} (self : Observer) where
  unfoldable pub finish_span : Action F (Unit {0})
  finish_span = when (is_some self.config.sentry_config) (emit Event.span_finished)

  unfoldable pub finish_gilk : Action F (Unit {0})
  finish_gilk = when (is_some self.config.gilk_config) (emit Event.gilk_ended)

-- `spanName := caller; if len(name) > 0 { spanName = name[0] }`
unfoldable pub span_name : String → Option String → String
span_name caller none = caller
span_name caller (some name) = name

module _ {F : Type 0} (self : Observer) (env : TraceEnv F) where
  unfoldable pub trace_span : Context F → String → Option String → Action F (Traced F)
  trace_span ctx caller name = do
    fresh ← look env.fresh_id
    let trace_id = get_trace ctx fresh
    start_span self env trace_id caller (span_name caller name)
    pure (set_trace ctx trace_id, finish_span self)

  -- `request_uri` and the header `X-Trace-Id` of the request. The request and the user that are set on the
  -- scope of Sentry are left out.
  unfoldable pub trace_request : Context F → String → String → Action F (Traced F)
  trace_request ctx request_uri raw = do
    fresh ← look env.fresh_id
    let trace_id = if same_text raw "" then get_trace ctx fresh else env.from_string raw
    start_gilk self env request_uri
    start_span self env trace_id request_uri request_uri
    pure (set_trace ctx trace_id, (finish_gilk self >> finish_span self))

  unfoldable pub trace_query : Context F → String → String → Action F (Traced F)
  trace_query ctx caller sql = do
    fresh ← look env.fresh_id
    let trace_id = get_trace ctx fresh
    start_gilk self env sql
    start_span self env trace_id caller caller
    pure (set_trace ctx trace_id, (finish_gilk self >> finish_span self))

  unfoldable pub trace_task : Context F → String → Action F (Traced F)
  trace_task ctx task = do
    fresh ← look env.fresh_id
    let trace_id = get_trace ctx fresh
    start_span self env trace_id task task
    pure (set_trace ctx trace_id, finish_span self)

-- ===== src/Middleware/Observer/Logging.antt =====
-- What the handlers of middleware/observer.go log, and under which trace id.
use kit_legacy.Base.{
  String, same_text, ◌≡◌, refl, sym, ap, ◌∙◌, subst, inl, inr, Bool-cases, ◌∷◌, arith,
  if◌then◌else◌,
}
use kit_legacy.World.Event.{Event, World}
use kit_legacy.World.Action.{returned, Fallible, pure, bind-returned, ◌>>=◌, ◌>>◌}
use kit_legacy.World.Context.{Context}
use kit_legacy.Observe.Observer.{Observer, get_trace, set_trace}
use kit_legacy.Observe.Observer.Traces.{
  Traced, TraceEnv, trace_request, trace_task, start_gilk, start_span, finish_gilk, finish_span,
}
use kit_legacy.Middleware.Observer.{
  response_trace_id_header, Request, RequestView, TaskView, request_fields, task_fields, deferring,
  log_fields, log_request, log_task, traced_request, traced_task, handle_request, handle_task,
}
use kit_legacy.Middleware.Observer.Lines.{lines, Logged, Silent, Logging, reply-Logged}

module _ {F : Type 0} (observer : Observer) (env : TraceEnv F) where
  request-Logging :
      (view : RequestView F) (trace_id : String)
      → Logging observer.logger.threshold
          (λ _. request_fields view trace_id)
          (log_request observer view trace_id)
  unfolding Logging log_request log_fields lines
  request-Logging view trace_id err w = elim (Bool-cases (view.has_hub w)) [
    | inl yes' ↦ rw yes' (refl, (Event.transaction_set (view.path w) ∷ w, refl))
    | inr no' ↦ rw no' (refl, (w, refl))
  ]

  task-Logging :
      (view : TaskView F) (task trace_id : String)
      → Logging observer.logger.threshold
          (task_fields view task trace_id)
          (log_task observer view task trace_id)
  unfolding Logging log_task log_fields lines
  task-Logging view task trace_id err w = (refl, (w, refl))

  finish-Silent : Silent {F = F} (finish_gilk observer >> finish_span observer)
  unfolding Silent finish_gilk finish_span lines
  finish-Silent w = ground arith

  span-Silent : Silent {F = F} (finish_span observer)
  unfolding Silent finish_span lines
  span-Silent w = ground arith

  start_gilk-Silent : (name : String) → Silent (start_gilk observer env name)
  unfolding Silent start_gilk lines
  start_gilk-Silent name w = ground arith

  start_span-Silent :
      (trace_id transaction name : String)
      → Silent (start_span observer env trace_id transaction name)
  unfolding Silent start_span lines
  start_span-Silent trace_id transaction name w = ground arith

  -- The trace id of a request: that of its header, or else of its context, or else a fresh one.
  abbrev pub request_trace_id : Context F → String → World F → String
  request_trace_id ctx raw w =
      if same_text raw "" then get_trace ctx (env.fresh_id w) else env.from_string raw

  request_begins :
      (ctx : Context F) (uri raw : String) (w : World F)
      → (w1 : World F) × (lines w1 ≡ lines w)
        × (trace_request observer env ctx uri raw w ≡ (
          returned (
            set_trace ctx (request_trace_id ctx raw w),
            (finish_gilk observer >> finish_span observer),
          ),
          w1,
        ))
  unfolding trace_request Silent
  request_begins ctx uri raw w =
      let trace_id = request_trace_id ctx raw w in
      let (back, same) = start_gilk-Silent uri w in
      let begun = (start_gilk observer env uri w).1 in
      let (back', same') = start_span-Silent trace_id uri uri begun in
      let traced : Traced F =
        (set_trace ctx trace_id, (finish_gilk observer >> finish_span observer)) in
      let span = start_span observer env trace_id uri uri in
      (
        (span begun).1,
        same' ∙ same,
        bind-returned (start_gilk observer env uri) (λ (_ : Unit {0}). span >> pure traced) w tt
              back
            ∙ bind-returned span (λ (_ : Unit {0}). pure traced) begun tt back',
      )

  task_begins :
      (ctx : Context F) (task : String) (w : World F)
      → (w1 : World F) × (lines w1 ≡ lines w)
        × (trace_task observer env ctx task w
            ≡ (returned (set_trace ctx (get_trace ctx (env.fresh_id w)), finish_span observer), w1))
  unfolding trace_task Silent
  task_begins ctx task w =
      let trace_id = get_trace ctx (env.fresh_id w) in
      let span = start_span observer env trace_id task task in
      let (back, same) = start_span-Silent trace_id task task w in
      let traced : Traced F = (set_trace ctx trace_id, finish_span observer) in
      ((span w).1, same, bind-returned span (λ (_ : Unit {0}). pure traced) w tt back)

  pub handle_request-Logged :
      (next : Context F → Fallible F) (view : RequestView F) (request : Request) (ctx : Context F)
      (w : World F)
      → let trace_id = request_trace_id ctx request.trace_header w in
        (w1 : World F) × (lines w1 ≡ lines w)
        × Logged observer.logger.threshold
            (λ _. request_fields view trace_id)
            (next
              (set_trace ctx trace_id)
              (Event.response_header_set response_trace_id_header trace_id ∷ w1))
            (handle_request observer env next view request ctx w)
  unfolding handle_request deferring traced_request set_trace get_trace
  handle_request-Logged next view request ctx w =
      let trace_id = request_trace_id ctx request.trace_header w in
      let (w1, quiet, e) = request_begins ctx request.request_uri request.trace_header w in
      let before = Event.response_header_set response_trace_id_header trace_id ∷ w1 in
      let reply = next (set_trace ctx trace_id) before in
      let logged =
        reply-Logged observer.logger.threshold (λ _. request_fields view trace_id)
          (finish_gilk observer >> finish_span observer) (log_request observer view trace_id) before
          reply finish-Silent (request-Logging view trace_id) in
      let course =
        ap
          (λ y.
            ((λ (_ : World F). y) >>= λ traced.
            deferring traced.1 (traced_request observer env next view traced.0))
              w)
          e in
      (
        w1,
        quiet,
        subst (Logged observer.logger.threshold (λ _. request_fields view trace_id) reply)
            (sym course) logged,
      )

  -- HandleTask: the next handler gets the context with its trace id, or else a fresh one; if it returns,
  -- one line is logged, with that id and the status by whether an error was returned, where the level of
  -- the logger is at most info, and none where it is above; none is logged if it panics or ends the
  -- process; and the call ends as it did.
  pub handle_task-Logged :
      (next : Context F → Fallible F) (view : TaskView F) (task : String) (ctx : Context F)
      (w : World F)
      → let trace_id = get_trace ctx (env.fresh_id w) in
        (w1 : World F) × (lines w1 ≡ lines w)
        × Logged observer.logger.threshold
            (task_fields view task trace_id)
            (next (set_trace ctx trace_id) w1)
            (handle_task observer env next view task ctx w)
  unfolding handle_task deferring traced_task set_trace get_trace
  handle_task-Logged next view task ctx w =
      let trace_id = get_trace ctx (env.fresh_id w) in
      let (w1, quiet, e) = task_begins ctx task w in
      let reply = next (set_trace ctx trace_id) w1 in
      let logged =
        reply-Logged observer.logger.threshold (task_fields view task trace_id)
          (finish_span observer) (log_task observer view task trace_id) w1 reply span-Silent
          (task-Logging view task trace_id) in
      let course =
        ap
          (λ y.
            ((λ (_ : World F). y) >>= λ traced.
            deferring traced.1 (traced_task observer env next view task traced.0))
              w)
          e in
      (
        w1,
        quiet,
        subst (Logged observer.logger.threshold (task_fields view task trace_id) reply) (sym course)
            logged,
      )

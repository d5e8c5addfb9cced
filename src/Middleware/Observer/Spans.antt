-- ===== src/Middleware/Observer/Spans.antt =====
-- The handlers of middleware/observer.go end what they start, however the next handler ends.
use kit_legacy.Base.{ℕ, ◌+◌, String, ◌≡◌, refl, Option, none, ◌∷◌, arith, ap, subst, sym, ◌∙◌}
use kit_legacy.Errors.Value.{GoError}
use kit_legacy.World.Event.{Event, World}
use kit_legacy.World.Action.{
  Outcome, returned, panicked, exited, Action, Fallible, pure, panic_with, bind-returned, ◌>>=◌,
}
use kit_legacy.World.Context.{Context}
use kit_legacy.Observe.Observer.{Observer, get_trace}
use kit_legacy.Observe.Observer.Traces.{Traced, TraceEnv, trace_request, trace_task}
use kit_legacy.Observe.Observer.Spans.{started, ended, Counts, Begins, traces-Begins}
use kit_legacy.Middleware.Observer.{
  response_trace_id_header, Request, RequestView, TaskView, run_deferred, deferring, log_fields,
  log_request, log_task, traced_request, traced_task, handle_request, handle_task,
}

module _ {F : Type 0} where
  -- The process goes on.
  abbrev pub Alive : Outcome F (Option (GoError F)) → Type 0
  Alive (returned r) = Unit
  Alive (panicked v) = Unit
  Alive (exited code) = ⊥

  -- As many spans, requests and queries were ended as were started.
  abbrev pub Balanced : World F → World F → Type 0
  Balanced w w' = started w' + ended w ≡ ended w' + started w

  -- A course with the outcome of another, and with the same spans, requests and queries.
  abbrev Like :
      Outcome F (Option (GoError F)) × World F → Outcome F (Option (GoError F)) × World F → Type 0
  Like course other =
      (course.0 ≡ other.0) × (started course.1 ≡ started other.1) × (ended course.1 ≡ ended other.1)

  run_deferred-Counts :
      (n : ℕ) (f : Action F (Unit {0})) (o : Outcome F (Option (GoError F))) (w : World F)
      → Counts 0 n f
      → Alive o
      → ((run_deferred f (o, w)).0 ≡ o)
        × (started (run_deferred f (o, w)).1 ≡ started w)
        × (ended (run_deferred f (o, w)).1 ≡ ended w + n)
  unfolding Counts run_deferred
  run_deferred-Counts n f (returned r) w h _ =
      let (e, s, d) = h w in
      let course = bind-returned f (λ (_ : Unit {0}). pure r) w tt e in
      rw course (refl, omega arith, d)
  run_deferred-Counts n f (panicked v) w h _ =
      let (e, s, d) = h w in
      let course =
        bind-returned {B = Option (GoError F)} f (λ (_ : Unit {0}). panic_with v) w tt e in
      rw course (refl, omega arith, d)
  run_deferred-Counts n f (exited code) w h dead = absurd dead

  Like-bind :
      (m : Fallible F) (k : Option (GoError F) → Fallible F) (w : World F)
      → ((err : Option (GoError F)) (w' : World F) → Like (k err w') (returned err, w'))
      → Like ((m >>= k) w) (m w)
  Like-bind m k w quiet = by_reply (m w)
    where
      by_reply :
          (reply : Outcome F (Option (GoError F)) × World F)
          → Like (((λ (_ : World F). reply) >>= k) w) reply
      by_reply (returned err, w') = quiet err w'
      by_reply (panicked v, w') = (refl, refl, refl)
      by_reply (exited code, w') = (refl, refl, refl)

module _ {F : Type 0} (observer : Observer) where
  log_request-Like :
      (view : RequestView F) (trace_id : String) (err : Option (GoError F)) (w : World F)
      → Like (log_request observer view trace_id err w) (returned err, w)
  unfolding log_request log_fields
  log_request-Like view trace_id err w = ground arith

  log_task-Like :
      (view : TaskView F) (task trace_id : String) (err : Option (GoError F)) (w : World F)
      → Like (log_task observer view task trace_id err w) (returned err, w)
  unfolding log_task log_fields
  log_task-Like view task trace_id err w = (refl, refl, refl)

module _ {F : Type 0} where
  -- A body that is like the next handler, under the end of a trace.
  deferring-Balanced :
      (w : World F) (traced : Traced F) (n : ℕ) (w1 : World F) (body : Fallible F)
      (reply : Outcome F (Option (GoError F)) × World F)
      → started w1 ≡ started w + n
      → ended w1 ≡ ended w
      → Counts 0 n traced.1
      → Like (body w1) reply
      → Alive reply.0
      → Balanced w1 reply.1
      → ((deferring traced.1 body w1).0 ≡ reply.0) × Balanced w (deferring traced.1 body w1).1
  unfolding deferring
  deferring-Balanced w traced n w1 body reply s e counts (same, like_s, like_e) alive even =
      let (o, s', e') =
        run_deferred-Counts n traced.1 (body w1).0 (body w1).1 counts
          (subst {A = Outcome F (Option (GoError F))} Alive (sym same) alive) in
      (o ∙ same, omega (arith, s, e, s', e', like_s, like_e, even))

  -- What the next handler does in a context, from a trace on.
  abbrev pub Even : (Context F → Fallible F) → Type 0
  Even next = (ctx : Context F) (w : World F) → Alive (next ctx w).0 × Balanced w (next ctx w).1

  -- The outcome of the next handler in some context, with all spans, requests and queries ended.
  unfoldable pub Wraps :
      (Context F → Fallible F) → World F → Outcome F (Option (GoError F)) × World F → Type 0
  Wraps next w course =
      (ctx : Context F) × (before : World F) × (course.0 ≡ (next ctx before).0)
      × Balanced w course.1

module _ {F : Type 0} (next : Context F → Fallible F) where
  -- A body that calls the next handler in some context, behind and before calls that count nothing.
  abbrev Calls : World F → Outcome F (Option (GoError F)) × World F → Type 0
  Calls w1 course =
      (ctx : Context F) × (before : World F) × (started before ≡ started w1)
      × (ended before ≡ ended w1)
      × Like course (next ctx before)

  traced-Wraps :
      (trace : Action F (Traced F)) (body : Traced F → Fallible F) (w : World F)
      → Even next
      → Begins w (trace w)
      → ((traced : Traced F) (w1 : World F) → Calls w1 (body traced w1))
      → Wraps next w ((trace >>= λ traced. deferring traced.1 (body traced)) w)
  unfolding Wraps Begins
  traced-Wraps trace body w even (traced, n, e, s, d, counts) calls =
      let w1 = (trace w).1 in
      let (ctx, before, s1, d1, like) = calls traced w1 in
      let (alive, balanced) = even ctx before in
      let (outcome, all) =
        deferring-Balanced w traced n w1 (body traced) (next ctx before) s d counts like alive
          (omega (arith, s1, d1, balanced)) in
      let course = bind-returned trace (λ (t : Traced F). deferring t.1 (body t)) w traced e in
      (
        ctx,
        before,
        ap (λ c. c.0) course ∙ outcome,
        subst {A = World F} (Balanced w) (ap (λ c. c.1) (sym course)) all,
      )

module _ {F : Type 0} (observer : Observer) (env : TraceEnv F) where
  -- If the next handler, which returns or panics, ends what it starts, then so do HandleRequest and
  -- HandleTask around it, and they return or panic as it does.
  pub handlers-Wraps :
      (next : Context F → Fallible F) (view : RequestView F) (of : TaskView F) (request : Request)
      (task : String) (ctx : Context F) (w : World F)
      → Even next
      → Wraps next w (handle_request observer env next view request ctx w)
        × Wraps next w (handle_task observer env next of task ctx w)
  unfolding handle_request handle_task traced_request traced_task
  handlers-Wraps next view of request task ctx w even =
      let (_, of_request, _, _) =
        traces-Begins observer env ctx request.request_uri "" request.trace_header none w in
      let (_, _, _, of_task') = traces-Begins observer env ctx task "" "" none w in
      (
        traced-Wraps next (trace_request observer env ctx request.request_uri request.trace_header)
            (λ traced. traced_request observer env next view traced.0) w even of_request
            (λ traced w1.
              let trace_id = get_trace traced.0 (env.fresh_id w1) in
              let before = Event.response_header_set response_trace_id_header trace_id ∷ w1 in
              (
                traced.0,
                before,
                refl,
                refl,
                Like-bind (next traced.0) (log_request observer view trace_id) before
                    (log_request-Like observer view trace_id),
              )),
        traced-Wraps next (trace_task observer env ctx task)
            (λ traced. traced_task observer env next of task traced.0) w even of_task'
            (λ traced w1.
              let trace_id = get_trace traced.0 (env.fresh_id w1) in
              (
                traced.0,
                w1,
                refl,
                refl,
                Like-bind (next traced.0) (log_task observer of task trace_id) w1
                    (log_task-Like observer of task trace_id),
              )),
      )

-- ===== src/Database/Queries.antt =====
-- When `Query` of database.go succeeds, and what it closes.
use kit_legacy.Base.{
  ◌+◌, String, ◌≡◌, ◌↔◌, Option, none, ◌∷◌, arith, ap, ◌∙◌, sym, subst, Option-cases, inl, inr,
}
use kit_legacy.Errors.Value.{GoError, ErrorsLib}
use kit_legacy.World.Event.{Event, World}
use kit_legacy.World.Action.{
  Outcome, returned, panicked, exited, Action, pure, emit, bind-returned, ◌>>=◌, ◌>>◌,
}
use kit_legacy.World.Context.{Context}
use kit_legacy.Observe.Observer.{set_trace, get_trace}
use kit_legacy.Observe.Observer.Traces.{
  Traced, TraceEnv, trace_query, start_gilk, start_span, finish_gilk, finish_span,
}
use kit_legacy.Observe.Observer.Spans.{started, ended, Counts, Begins, traces-Begins}
use kit_legacy.Database.Classify.{PgLib}
use kit_legacy.Database.Store.{Database, PgxEnv, db_error, scan_rows, close_rows, query_rows, query}

value_or : {F A : Type 0} → A → Outcome F A → A
value_or a (returned b) = b
value_or a (panicked v) = a
value_or a (exited code) = a

module _ {F : Type 0} ⦃lib : ErrorsLib F⦄ (self : Database) (pg : PgLib) (env : PgxEnv F)
    (tracing : TraceEnv F) where
  -- The statement runs, the context is not done behind it, and the rows are scanned.
  abbrev pub Answered : Context F → String → World F → Type 0
  Answered ctx sql w =
      let next = Event.queried ctx.transaction sql (env.query ctx.transaction sql w) ∷ w in
      (env.query ctx.transaction sql w ≡ none) × (ctx.err next ≡ none) × (env.scan next ≡ none)

  query_rows_lem :
      (ctx : Context F) (sql : String) (w : World F)
      → (r : Option (GoError F)) × ((query_rows self pg env tracing ctx sql w).0 ≡ returned r)
        × ((r ≡ none) ↔ Answered ctx sql w)
        × (started (query_rows self pg env tracing ctx sql w).1 ≡ started w)
        × (ended (query_rows self pg env tracing ctx sql w).1 ≡ ended w)
  unfolding query_rows scan_rows close_rows db_error
  query_rows_lem ctx sql w =
      let next = Event.queried ctx.transaction sql (env.query ctx.transaction sql w) ∷ w in
      elim (Option-cases (env.query ctx.transaction sql w)) [
        | inr (err, e) ↦ (db_error pg err, ground arith, ground arith, ground arith, ground arith)
        | inl e ↦ elim (Option-cases (ctx.err next)) [
          | inr (err, e') ↦
              (db_error pg err, ground arith, ground arith, ground arith, ground arith)
          | inl e' ↦ elim (Option-cases (env.scan next)) [
            | inr (err, e'') ↦
                (db_error pg err, ground arith, ground arith, ground arith, ground arith)
            | inl e'' ↦ (none, ground arith, ground arith, ground arith, ground arith)
          ]
        ]
      ]

  trace_query_returns :
      (ctx : Context F) (caller sql : String) (w : World F)
      → (trace_query self.observer tracing ctx caller sql w).0
        ≡ returned (
          set_trace ctx (get_trace ctx (tracing.fresh_id w)),
          (finish_gilk self.observer >> finish_span self.observer),
        )
  unfolding trace_query start_gilk start_span
  trace_query_returns ctx caller sql w = ground arith

  -- Nil exactly when the query is answered, at some moment, with the statement closed last and all that
  -- the trace has started ended.
  unfoldable pub Queries :
      Context F → String → World F → Outcome F (Option (GoError F)) × World F → Type 0
  Queries ctx sql w course =
      (during before : World F) × (r : Option (GoError F)) × (course
        ≡ (returned r, Event.statement_closed ∷ before))
      × ((r ≡ none) ↔ Answered ctx sql during)
      × (started course.1 + ended w ≡ ended course.1 + started w)

  -- Query returns nil exactly when the statement runs, the context is not done behind it and the rows
  -- are scanned; in every case it ends the spans that it starts and closes the statement, last of all.
  pub query-Queries :
      (ctx : Context F) (caller sql : String) (w : World F)
      → Queries ctx sql w (query self pg env tracing ctx caller sql w)
  unfolding Queries query Begins Counts set_trace value_or
  query-Queries ctx caller sql w =
      let trace = trace_query self.observer tracing ctx caller sql in
      let ctx' = set_trace ctx (get_trace ctx (tracing.fresh_id w)) in
      let at_end = finish_gilk {F = F} self.observer >> finish_span self.observer in
      let returns = trace_query_returns ctx caller sql w in
      let (_, _, (traced, n, e, s, d, counts), _) =
        traces-Begins self.observer tracing ctx caller sql "" none w in
      let same : traced ≡ (ctx', at_end) = ap (value_or (ctx', at_end)) (sym e ∙ returns) in
      let ends : Counts 0 n at_end = subst {A = Traced F} (λ t. Counts 0 n t.1) same counts in
      let w1 = (trace w).1 in
      let (r, e1, answered, s1, d1) = query_rows_lem ctx' sql w1 in
      let w2 = (query_rows self pg env tracing ctx' sql w1).1 in
      let (e2, s2, d2) = ends w2 in
      let last = λ (result : Option (GoError F)). emit Event.statement_closed >> pure result in
      let closing = λ (f : Action F (Unit {0})) (result : Option (GoError F)). f >> last result in
      let body = λ (t : Traced F). query_rows self pg env tracing t.0 sql >>= closing t.1 in
      let course =
        bind-returned trace body w (ctx', at_end) returns
        ∙ (bind-returned (query_rows self pg env tracing ctx' sql) (closing at_end) w1 r e1
            ∙ bind-returned at_end (λ (_ : Unit {0}). last r) w2 tt e2) in
      (w1, (at_end w2).1, r, course, answered, rw course (omega (arith, s, d, s1, d1, s2, d2)))

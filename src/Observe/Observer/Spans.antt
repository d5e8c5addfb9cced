-- ===== src/Observe/Observer/Spans.antt =====
-- What the `Trace…` methods of observer.go start, and that the function they return ends as much.
use kit_legacy.Base.{
  ℕ, suc, ◌+◌, String, ◌≡◌, refl, Bool, Option, is_some, [], ◌∷◌, arith, if◌then◌else◌, ◌∙◌,
}
use kit_legacy.World.Event.{Event, World}
use kit_legacy.World.Action.{Outcome, returned, pure, Action, bind-returned, ◌>>◌}
use kit_legacy.World.Context.{Context}
use kit_legacy.Observe.Observer.{Observer}
use kit_legacy.Observe.Observer.Traces.{
  Traced, TraceEnv, start_span, start_gilk, finish_span, finish_gilk, trace_span, trace_request,
  trace_query, trace_task,
}

module _ {F : Type 0} where
  -- The spans, requests and queries that were started, and those that were ended.
  abbrev pub started : World F → ℕ
  started [] = 0
  started (Event.span_started name ∷ w) = suc (started w)
  started (Event.gilk_started name ∷ w) = suc (started w)
  started (_ ∷ w) = started w

  abbrev pub ended : World F → ℕ
  ended [] = 0
  ended (Event.span_finished ∷ w) = suc (ended w)
  ended (Event.gilk_ended ∷ w) = suc (ended w)
  ended (_ ∷ w) = ended w

  -- An action that returns, and starts `s` and ends `e` of them.
  unfoldable pub Counts : ℕ → ℕ → Action F (Unit {0}) → Type 0
  Counts s e action =
      (w : World F)
      → ((action w).0 ≡ returned tt)
        × (started (action w).1 ≡ started w + s)
        × (ended (action w).1 ≡ ended w + e)

  -- A trace that starts as many as the function that it returns ends.
  unfoldable pub Begins : World F → Outcome F (Traced F) × World F → Type 0
  Begins w course =
      (traced : Traced F) × (n : ℕ) × (course.0 ≡ returned traced)
      × (started course.1 ≡ started w + n)
      × (ended course.1 ≡ ended w)
      × Counts 0 n traced.1

  then-Counts :
      (a b : Action F (Unit {0})) (s s' e e' : ℕ)
      → Counts s e a
      → Counts s' e' b
      → Counts (s + s') (e + e') (a >> b)
  unfolding Counts
  then-Counts a b s s' e e' ha hb w =
      let (ra, sa, ea) = ha w in
      let (rb, sb, eb) = hb (a w).1 in
      let course = bind-returned a (λ _. b) w tt ra in rw course (rb, omega arith, omega arith)

module _ {F : Type 0} (self : Observer) (env : TraceEnv F) where
  start_span-Counts :
      (sentry : Bool)
      → is_some self.config.sentry_config ≡ sentry
      → (trace_id transaction name : String)
      → Counts (if sentry then 1 else 0) 0 (start_span self env trace_id transaction name)
  unfolding Counts start_span
  start_span-Counts sentry e trace_id transaction name w = ground arith

  start_gilk-Counts :
      (gilk : Bool)
      → is_some self.config.gilk_config ≡ gilk
      → (name : String) → Counts (if gilk then 1 else 0) 0 (start_gilk self env name)
  unfolding Counts start_gilk
  start_gilk-Counts gilk e name w = ground arith

  finish_span-Counts :
      (sentry : Bool)
      → is_some self.config.sentry_config ≡ sentry
      → Counts {F = F} 0 (if sentry then 1 else 0) (finish_span self)
  unfolding Counts finish_span
  finish_span-Counts sentry e w = ground arith

  finish_gilk-Counts :
      (gilk : Bool)
      → is_some self.config.gilk_config ≡ gilk
      → Counts {F = F} 0 (if gilk then 1 else 0) (finish_gilk self)
  unfolding Counts finish_gilk
  finish_gilk-Counts gilk e w = ground arith

module _ {F : Type 0} where
  Begins-one :
      (a f : Action F (Unit {0})) (ctx : Context F) (n : ℕ) (w : World F)
      → Counts n 0 a
      → Counts 0 n f
      → Begins w ((a >> pure (ctx, f)) w)
  unfolding Begins Counts
  Begins-one a f ctx n w ha hf =
      let (ra, sa, ea) = ha w in
      let course = bind-returned a (λ (_ : Unit {0}). pure {A = Traced F} (ctx, f)) w tt ra in
      rw course ((ctx, f), n, refl, sa, omega (arith, ea), hf)

  Begins-two :
      (a b f : Action F (Unit {0})) (ctx : Context F) (n m : ℕ) (w : World F)
      → Counts n 0 a
      → Counts m 0 b
      → Counts 0 (n + m) f
      → Begins w ((a >> (b >> pure (ctx, f))) w)
  unfolding Begins Counts
  Begins-two a b f ctx n m w ha hb hf =
      let (ra, sa, ea) = ha w in
      let (rb, sb, eb) = hb (a w).1 in
      let last = λ (_ : Unit {0}). pure {A = Traced F} (ctx, f) in
      let course =
        bind-returned a (λ _. b >> last tt) w tt ra ∙ bind-returned b last (a w).1 tt rb in
      rw course ((ctx, f), n + m, refl, omega (arith, sa, sb), omega (arith, ea, eb), hf)

module _ {F : Type 0} (self : Observer) (env : TraceEnv F) (ctx : Context F) where
  -- The function that a trace of a request, a query, a task or a span returns ends as many spans,
  -- requests and queries as the trace has started.
  pub traces-Begins :
      (name sql raw : String) (own : Option String) (w : World F)
      → Begins w (trace_span self env ctx name own w)
        × Begins w (trace_request self env ctx name raw w)
        × Begins w (trace_query self env ctx name sql w)
        × Begins w (trace_task self env ctx name w)
  unfolding trace_span trace_request trace_query trace_task
  traces-Begins name sql raw own w =
      let sentry = is_some self.config.sentry_config in
      let gilk = is_some self.config.gilk_config in
      let span = start_span-Counts self env sentry refl in
      let request = start_gilk-Counts self env gilk refl in
      let end_span = finish_span-Counts self env sentry refl in
      let end_both =
        then-Counts (finish_gilk self) (finish_span self) 0 0 _ _
          (finish_gilk-Counts self env gilk refl) end_span in
      (
        Begins-one _ _ _ _ w (span _ _ _) end_span,
        Begins-two _ _ _ _ _ _ w (request _) (span _ _ _) end_both,
        Begins-two _ _ _ _ _ _ w (request _) (span _ _ _) end_both,
        Begins-one _ _ _ _ w (span _ _ _) end_span,
      )

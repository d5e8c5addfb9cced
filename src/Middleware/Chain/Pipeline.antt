-- ===== src/Middleware/Chain/Pipeline.antt =====
-- A handler under the recover and the exception middleware, in a server whose error handler is that of
-- exception_handler.go: the responses to one request.
use kit_legacy.Base.{
  ℤ, String, ◌≡◌, refl, ap, ◌∙◌, sym, subst, Bool, true, false, Option, none, some, Bool-cases, inl,
  inr, List, [], ◌∷◌, if◌then◌else◌,
}
use kit_legacy.Errors.Value.{GoError, ErrorsLib, is_sentinel}
use kit_legacy.World.Event.{Any, World}
use kit_legacy.World.Action.{
  Outcome, returned, panicked, exited, Action, pure, bind-returned, bind-panicked, ◌>>=◌,
}
use kit_legacy.World.Context.{Context}
use kit_legacy.ExceptionHandler.{ExceptionHandler, EchoEnv, choose, left}
use kit_legacy.ExceptionHandler.Laws.{responses, body_of}
use kit_legacy.Middleware.Chain.{
  Handler, Response, context_error, exception_handle, recovered_error, recover_handle, after_next,
  passed,
}
use kit_legacy.Middleware.Chain.Laws.{
  Answers, context_error-Answers, exception_handle-Answers, recover_handle-Answers,
}

-- Echo commits a response with the first that it is given.
abbrev pub is_answered : {F : Type 0} → World F → Bool
is_answered w = elim (responses w) [ [] ↦ false | r ∷ rs ↦ true ]

abbrev pub on_trace : {F : Type 0} → Bool → Response F
on_trace is_head w = record { committed = is_answered w; is_head = is_head }

module _ {F : Type 0} ⦃lib : ErrorsLib F⦄ (env : EchoEnv F) (exceptions : ExceptionHandler)
    (is_head : Bool) where
  -- `server.HTTPErrorHandler = exceptionHandler.Handle`: what echo does with what the chain returns
  unfoldable pub server_error : Option (GoError F) → Action F (Unit {0})
  server_error none = pure tt
  server_error (some err) = context_error env exceptions (on_trace is_head) err

  -- A request, from the recover middleware on.
  unfoldable pub serve : Handler F → Context F → Action F (Unit {0})
  serve next ctx =
      recover_handle env exceptions (on_trace is_head)
        (exception_handle env exceptions (on_trace is_head) next) ctx
      >>= server_error

  -- The responses behind one to `err`, if none was given before.
  abbrev pub with_answer : GoError F → World F → List (ℤ × Option (List (String × String)))
  with_answer err w =
      if is_answered w
      then responses w
      else (
        (choose env err).status,
        (if is_head then none else some (body_of exceptions (choose env err))),
      )
        ∷ responses w

  Answered : GoError F → World F → World F → Type 0
  Answered err w w' = (responses w' ≡ with_answer err w) × (is_answered w' ≡ true)

  Answers-Answered :
      (err : GoError F) (w w' : World F)
      → Answers env exceptions (on_trace is_head) err w w'
      → Answered err w w'
  unfolding Answers Answered
  Answers-Answered err w w' (same, fresh) = elim (Bool-cases (is_answered w)) [
    | inl yes' ↦ let e = same yes' in rw e (rw yes' refl, yes')
    | inr no' ↦
        let e = fresh no' in
        (rw no' e, ap (λ rs. elim rs as (λ x. Bool) [ [] ↦ false | r ∷ rs' ↦ true ]) e)
  ]

  -- What a request leaves, by how the handler has ended, on the trace `w`.
  abbrev pub Served :
      Outcome F (Option (GoError F)) → World F → Outcome F (Unit {0}) × World F → Type 0
  Served (returned none) w y = y ≡ (returned tt, w)
  Served (returned (some err)) w y = (y.0 ≡ returned tt) × (responses y.1 ≡ with_answer err w)
  Served (panicked v) w y =
      if is_sentinel env.err_abort_handler (recovered_error v)
      then y ≡ (panicked (Any.an_error (recovered_error v)), w)
      else (y.0 ≡ returned tt) × (responses y.1 ≡ with_answer (recovered_error v) w)
  Served (exited code) w y = y ≡ (exited code, w)

  -- The error that is left behind a response is not answered again.
  answered_again :
      (err : GoError F) (w : World F)
      → is_answered w ≡ true
      → server_error (some err) w ≡ (returned tt, w)
  unfolding server_error Answers
  answered_again err w yes' =
      let (back, (same, fresh)) = context_error-Answers env exceptions (on_trace is_head) err w in
      let kept = same yes' in λ i. (back i, kept i)

  -- The chain has returned, and its error is handled on a response that is committed.
  chain_answered :
      (chain : Action F (Option (GoError F))) (result : Option (GoError F)) (w w' : World F)
      → chain w ≡ (returned result, w')
      → is_answered w' ≡ true
      → (chain >>= server_error) w ≡ (returned tt, w')
  unfolding server_error
  chain_answered chain none w w' e yes' =
      bind-returned chain server_error w none (ap (λ y. y.0) e) ∙ ap (λ y. (returned tt, y.1)) e
  chain_answered chain (some err) w w' e yes' =
      bind-returned chain server_error w (some err) (ap (λ y. y.0) e)
      ∙ ap (λ y. server_error (some err) y.1) e
      ∙ answered_again err w' yes'

  failed_course :
      (err : GoError F) (w' : World F) (ctx : Context F) (w : World F)
      → Served (returned (some err)) w' (serve (λ c u. (returned (some err), w')) ctx w)
  unfolding serve recover_handle after_next Answered
  failed_course err w' ctx w =
      let next : Handler F = λ c u. (returned (some err), w') in
      let caught = exception_handle env exceptions (on_trace is_head) next ctx w in
      let (back, answers) =
        exception_handle-Answers env exceptions (on_trace is_head) next ctx w w' err refl in
      let (once, yes') = Answers-Answered err w' caught.1 answers in
      let result = left exceptions (on_trace is_head w') err in
      let chain = ap (λ o. after_next env exceptions (on_trace is_head) (o, caught.1)) back in
      let course =
        chain_answered
          (recover_handle env exceptions (on_trace is_head)
            (exception_handle env exceptions (on_trace is_head) next) ctx)
          (some result) w caught.1 chain yes' in
      (ap (λ y. y.0) course, ap (λ y. responses y.1) course ∙ once)

  panicked_course :
      (v : Any F) (w' : World F) (ctx : Context F) (w : World F)
      → Served (panicked v) w' (serve (λ c u. (panicked v, w')) ctx w)
  unfolding serve exception_handle Answered
  panicked_course v w' ctx w =
      let next : Handler F = λ c u. (panicked v, w') in
      let err = recovered_error v in
      let caught = exception_handle env exceptions (on_trace is_head) next in
      let y = recover_handle env exceptions (on_trace is_head) caught ctx w in
      let (aborts, goes_on) =
        recover_handle-Answers env exceptions (on_trace is_head) caught ctx w w' v refl in
      let z = serve next ctx w in
      let Both : Bool → Type 0 = λ b.
        if b
        then z ≡ (panicked (Any.an_error err), w')
        else (z.0 ≡ returned tt) × (responses z.1 ≡ with_answer err w') in
      elim (Bool-cases (is_sentinel env.err_abort_handler err)) [
        | inl yes' ↦ subst Both (sym yes') (
            bind-panicked (recover_handle env exceptions (on_trace is_head) caught ctx) server_error
              w (Any.an_error err) (ap (λ o. o.0) (aborts yes'))
            ∙ ap (λ o. (panicked (Any.an_error err), o.1)) (aborts yes'))
        | inr no' ↦
            let (back, answers) = goes_on no' in
            let (once, yes') = Answers-Answered err w' y.1 answers in
            let course =
              chain_answered (recover_handle env exceptions (on_trace is_head) caught ctx) none w
                y.1 (λ i. (back i, y.1)) yes' in
            subst Both (sym no') (ap (λ y. y.0) course, ap (λ y. responses y.1) course ∙ once)
      ]

  serve_course :
      (reply : Outcome F (Option (GoError F)) × World F) (ctx : Context F) (w : World F)
      → Served reply.0 reply.1 (serve (λ c u. reply) ctx w)
  unfolding serve recover_handle exception_handle passed after_next server_error Answered
  serve_course (returned none, w') ctx w = refl
  serve_course (exited code, w') ctx w = refl
  serve_course (returned (some err), w') ctx w = failed_course err w' ctx w
  serve_course (panicked v, w') ctx w = panicked_course v w' ctx w

  -- However a handler ends under the two middlewares, with the error handler of the server behind them: an
  -- error, or a panic with another value than ErrAbortHandler, is answered by one response, which is that
  -- of the error or the value, unless the handler has given one before; nothing is answered twice, and a
  -- handler that returns nil, aborts or ends the process has no response added.
  pub serve-Served :
      (next : Handler F) (ctx : Context F) (w : World F)
      → Served (next ctx w).0 (next ctx w).1 (serve next ctx w)
  unfolding serve recover_handle exception_handle
  serve-Served next ctx w = serve_course (next ctx w) ctx w

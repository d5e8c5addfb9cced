-- ===== src/Middleware/Timeout/Late.antt =====
-- What reaches the client when the time is up first.
use kit_legacy.Base.{subst, ◌≡◌, refl, ◌∙◌, sym, ap, Bool, true, false, List, [], ◌∷◌, ◌++◌, arith}
use mathlib.Core.List.{append-nil, append_assoc}
use kit_legacy.Errors.Value.{foreign, ErrorsLib}
use kit_legacy.Middleware.Timeout.Writer.{Call, edit_headers, write_header, write}
use kit_legacy.Middleware.Timeout.Exchange.{
  Server, original, timeout, HandlerCtx, send, perform, report, enter_timeout, answer_timeout,
  leave_timeout, handle_timeout, handle_panicked_after_timeout, handle_finished_after_timeout,
  call_response, call_all, context_error, new_timeout_handler_ctx,
}
use kit_legacy.Middleware.Timeout.Turns.{
  Ending, returns, panics, Goroutine, running, locking, holding, finished, failed, gone, Middleware,
  waiting, finishing, copying, answering, leaving, returning, ended, State, Turn, handler_turn,
  finish_turn, panic_turn, timeout_turn, middleware_turn, begin, start_call, end_handler,
  locked_call, direct_call, advance, after_finished, proceed, select_finish, select_panic,
  select_timeout, step, run,
}

-- The goroutine has not got the original writer.
unfoldable pub is_apart : {F : Type 0} → Goroutine F → Bool
is_apart (holding call calls ending) = false
is_apart _ = true

unfoldable pub is_over : {F : Type 0} → Middleware F → Bool
is_over returning = true
is_over (ended outcome) = true
is_over _ = false

-- `handleTimeout` without a turn of the handler within.
abbrev pub time_out : List Turn
time_out = timeout_turn ∷ middleware_turn ∷ middleware_turn ∷ []

module _ {F : Type 0} ⦃lib : ErrorsLib F⦄ (server : Server F) where
  -- A turn of the handler apart changes nothing that the client receives.
  unfoldable pub Quiet : State F → State F → Type 0
  Quiet x y =
      (y.middleware ≡ x.middleware)
      × (y.ctx.installed ≡ timeout)
      × (y.ctx.sent ≡ x.ctx.sent)
      × (is_apart y.goroutine ≡ true)

  pub advance-Quiet :
      (goroutine : Goroutine F) (x : State F)
      → x.ctx.installed ≡ timeout
      → is_apart goroutine ≡ true
      → x.goroutine ≡ goroutine
      → Quiet x (advance server goroutine x)
  unfolding Quiet is_apart advance start_call direct_call locked_call end_handler perform report
      handle_finished_after_timeout handle_panicked_after_timeout
  advance-Quiet (running [] (returns err)) x out apart same = ground arith
  advance-Quiet (running [] (panics v)) x out apart same = ground arith
  advance-Quiet (running (call ∷ calls) ending) x out apart same = ground arith
  advance-Quiet (locking (edit_headers change) calls ending) x out apart same = ground arith
  advance-Quiet (locking (write_header code) calls ending) x out apart same = ground arith
  advance-Quiet (locking (write body) calls ending) x out apart same = ground arith
  advance-Quiet (holding call calls ending) x out apart same = ground arith
  advance-Quiet finished x out apart same = ground arith
  advance-Quiet (failed v) x out apart same = ground arith
  advance-Quiet gone x out apart same = ground arith

  advance-middleware :
      (goroutine : Goroutine F) (x : State F)
      → (advance server goroutine x).middleware ≡ x.middleware
  unfolding advance start_call direct_call locked_call end_handler
  advance-middleware (running [] (returns err)) x = refl
  advance-middleware (running [] (panics v)) x = refl
  advance-middleware (running (call ∷ calls) ending) x = ground arith
  advance-middleware (locking call calls ending) x = ground arith
  advance-middleware (holding call calls ending) x = ground arith
  advance-middleware finished x = ground arith
  advance-middleware (failed v) x = ground arith
  advance-middleware gone x = refl

  -- As long as the middleware waits, the handler has the time-out writer and the client has nothing.
  unfoldable pub Unsent : State F → Type 0
  Unsent x =
      x.middleware ≡ waiting
      → (x.ctx.installed ≡ timeout) × (x.ctx.sent ≡ []) × (is_apart x.goroutine ≡ true)

  handler_turn-Unsent : (x : State F) → Unsent x → Unsent (step server handler_turn x)
  unfolding step Unsent Quiet
  handler_turn-Unsent x h waits =
      let (out, sent, apart) = h (sym (advance-middleware x.goroutine x) ∙ waits) in
      let (same, out', sent', apart') = advance-Quiet x.goroutine x out apart refl in
      (out', sent' ∙ sent, apart')

  select-Unsent :
      (middleware : Middleware F) (x : State F)
      → x.middleware ≡ middleware
      → Unsent x
      → Unsent (select_finish server middleware x)
        × Unsent (select_panic server middleware x)
        × Unsent (select_timeout server middleware x)
        × Unsent (proceed server middleware x)
  unfolding Unsent select_finish select_panic select_timeout proceed after_finished
  select-Unsent waiting x same h = (ground arith, ground arith, ground arith, h)
  select-Unsent finishing x same h = ground arith
  select-Unsent copying x same h = ground arith
  select-Unsent answering x same h = ground arith
  select-Unsent leaving x same h = ground arith
  select-Unsent returning x same h = ground arith
  select-Unsent (ended outcome) x same h = ground arith

  step-Unsent : (turn : Turn) (x : State F) → Unsent x → Unsent (step server turn x)
  unfolding step
  step-Unsent handler_turn x h = handler_turn-Unsent x h
  step-Unsent finish_turn x h = (select-Unsent x.middleware x refl h).0
  step-Unsent panic_turn x h = (select-Unsent x.middleware x refl h).1
  step-Unsent timeout_turn x h = (select-Unsent x.middleware x refl h).2
  step-Unsent middleware_turn x h = (select-Unsent x.middleware x refl h).3

  pub run-Unsent : (turns : List Turn) (x : State F) → Unsent x → Unsent (run server turns x)
  unfolding run
  run-Unsent [] x h = h
  run-Unsent (turn ∷ turns) x h = run-Unsent turns (step server turn x) (step-Unsent turn x h)

  -- The middleware is behind its switch back to the time-out writer, and the handler has not got the
  -- original one.
  abbrev pub IsOver : State F → Type 0
  IsOver x =
      (is_over x.middleware ≡ true) × (x.ctx.installed ≡ timeout) × (is_apart x.goroutine ≡ true)

  unfoldable pub Settled : State F → State F → Type 0
  Settled x y = IsOver y × (y.ctx.sent ≡ x.ctx.sent)

  select-Settled :
      (middleware : Middleware F) (x : State F)
      → x.middleware ≡ middleware
      → IsOver x
      → Settled x (select_finish server middleware x)
        × Settled x (select_panic server middleware x)
        × Settled x (select_timeout server middleware x)
        × Settled x (proceed server middleware x)
  unfolding Settled is_over select_finish select_panic select_timeout proceed
  select-Settled returning x same h = ground arith
  select-Settled (ended outcome) x same h = ground arith
  select-Settled waiting x same h = ground arith
  select-Settled finishing x same h = ground arith
  select-Settled copying x same h = ground arith
  select-Settled answering x same h = ground arith
  select-Settled leaving x same h = ground arith

  step-Settled : (turn : Turn) (x : State F) → IsOver x → Settled x (step server turn x)
  unfolding step Settled Quiet
  step-Settled handler_turn x (over, out, apart) =
      let (same, out', sent', apart') = advance-Quiet x.goroutine x out apart refl in
      ((ap is_over same ∙ over, out', apart'), sent')
  step-Settled finish_turn x h = (select-Settled x.middleware x refl h).0
  step-Settled panic_turn x h = (select-Settled x.middleware x refl h).1
  step-Settled timeout_turn x h = (select-Settled x.middleware x refl h).2
  step-Settled middleware_turn x h = (select-Settled x.middleware x refl h).3

  pub run-Settled : (turns : List Turn) (x : State F) → IsOver x → Settled x (run server turns x)
  unfolding run Settled
  run-Settled [] x h = (h, refl)
  run-Settled (turn ∷ turns) x h =
      let (over, sent) = step-Settled turn x h in
      let (over', sent') = run-Settled turns (step server turn x) over in (over', sent' ∙ sent)

  -- Through the original writer every call reaches the client.
  pub call_response-sent :
      (call : Call) (self : HandlerCtx F)
      → self.installed ≡ original
      → ((call_response call self).sent ≡ self.sent ++ (call ∷ []))
        × ((call_response call self).installed ≡ original)
  unfolding call_response send
  call_response-sent call self direct = ground arith

  pub call_all-sent :
      (calls : List Call) (self : HandlerCtx F)
      → self.installed ≡ original
      → (call_all calls self).sent ≡ self.sent ++ calls
  unfolding call_all
  call_all-sent [] self direct = sym (append-nil self.sent)
  call_all-sent (call ∷ calls) self direct =
      let (sent, direct') = call_response-sent call self direct in
      call_all-sent calls (call_response call self) direct'
      ∙ ap (λ before. before ++ calls) sent
      ∙ append_assoc self.sent (call ∷ []) calls

  pub run-time_out :
      (x : State F)
      → x.middleware ≡ waiting
      → run server time_out x
        ≡ record x { ctx = handle_timeout server x.ctx; middleware = returning }
  unfolding run step select_timeout proceed handle_timeout
  run-time_out x waits = ap (λ m. run server time_out (record x { middleware = m })) waits

  IsOver-after_time_out :
      (x : State F)
      → is_apart x.goroutine ≡ true
      → IsOver (record x { ctx = handle_timeout server x.ctx; middleware = returning })
  unfolding is_over handle_timeout leave_timeout
  IsOver-after_time_out x apart = (refl, refl, apart)

  pub handle_timeout-sent :
      (self : HandlerCtx F)
      → self.sent ≡ []
      → (handle_timeout server self).sent
        ≡ server.on_error self.history (foreign server.err_handler_timeout)
  unfolding handle_timeout leave_timeout answer_timeout enter_timeout context_error
  handle_timeout-sent self nothing =
      call_all-sent (server.on_error self.history (foreign server.err_handler_timeout))
        (enter_timeout self) refl
      ∙ ap (λ before. before ++ server.on_error self.history (foreign server.err_handler_timeout))
          nothing

  -- Whatever the handler and the middleware do until the time is up, and whatever they do later, the
  -- client receives exactly the calls that answer `ErrHandlerTimeout`, given the calls of the handler that
  -- had returned, if the handler has no turn within `handleTimeout`.
  pub timed_out_sent :
      (calls : List Call) (ending : Ending F) (turns late : List Turn)
      → (run server turns (begin calls ending)).middleware ≡ waiting
      → let x = run server turns (begin calls ending) in
        (run server late (run server time_out x)).ctx.sent
        ≡ server.on_error x.ctx.history (foreign server.err_handler_timeout)
  unfolding Unsent Settled begin is_apart new_timeout_handler_ctx
  timed_out_sent calls ending turns late waits =
      let x = run server turns (begin calls ending) in
      let (out, nothing, apart) =
        run-Unsent turns (begin calls ending) (λ e. (refl, refl, refl)) waits in
      let course = run-time_out x waits in
      let over = subst {A = State F} (λ y. IsOver y) (sym course) (IsOver-after_time_out x apart) in
      (run-Settled late (run server time_out x) over).1
      ∙ ap (λ y. y.ctx.sent) course
      ∙ handle_timeout-sent x.ctx nothing

-- ===== src/Middleware/Timeout/Races.antt =====
-- Turns of the handler within `handleTimeout` and around it.
use kit_legacy.Base.{
  String, ◌≡◌, refl, ◌∙◌, ap, sym, subst, true, false, Option, none, some, List, [], ◌∷◌, ◌++◌,
  arith,
}
use kit_legacy.Errors.Value.{foreign, ErrorsLib}
use kit_legacy.World.Event.{Any, an_error}
use kit_legacy.Middleware.Timeout.Writer.{Call, write, free_buffer}
use kit_legacy.Middleware.Timeout.Exchange.{
  Server, original, HandlerCtx, send, perform, refusal, report, executing, error_of, enter_timeout,
  answer_timeout, leave_timeout, handle_timeout, handle_panicked_after_timeout, call_response,
  call_all, context_error, new_timeout_handler_ctx,
}
use kit_legacy.Middleware.Timeout.Turns.{
  Ending, running, locking, holding, waiting, answering, returning, State, Turn, handler_turn,
  timeout_turn, middleware_turn, begin, is_locked, needs_lock, start_call, end_handler, locked_call,
  direct_call, advance, proceed, select_timeout, step, run,
}
use kit_legacy.Middleware.Timeout.Late.{
  Unsent, run-Unsent, run-time_out, time_out, call_all-sent, is_apart,
}

-- `handleTimeout` with two turns of the handler behind the switch to the original writer.
abbrev pub time_out_around_handler : List Turn
time_out_around_handler =
    timeout_turn ∷ handler_turn ∷ handler_turn ∷ middleware_turn ∷ middleware_turn ∷ []

module _ {F : Type 0} ⦃lib : ErrorsLib F⦄ (server : Server F) where
  -- The handler's call has got the original writer within `handleTimeout`.
  within : Call → List Call → Ending F → State F → State F
  within call calls ending x = record x {
    ctx = enter_timeout x.ctx;
    middleware = answering;
    goroutine = holding call calls ending;
  }

  around-within :
      (x : State F) (call : Call) (calls : List Call) (ending : Ending F)
      → x.middleware ≡ waiting
      → x.goroutine ≡ running (call ∷ calls) ending
      → run server time_out_around_handler x
        ≡ run server
            (handler_turn ∷ middleware_turn ∷ middleware_turn ∷ [])
            (within call calls ending x)
  unfolding within run step select_timeout proceed advance start_call enter_timeout
  around-within x call calls ending waits runs =
      let go = λ (y : State F). run server time_out_around_handler y in
      ap (λ m. go (record x { middleware = m })) waits
      ∙ ap (λ g. go (record x { middleware = waiting; goroutine = g })) runs

  -- What the next call of the handler comes to, by what it panics with on the original writer: it reaches
  -- the client before the answer to the time-out, or the handler panics, and the answer is all.
  abbrev pub Escapes : HandlerCtx F → Call → Option (Any F) → State F → Type 0
  Escapes ctx call none y =
      y.ctx.sent
      ≡ call ∷ server.on_error (ctx.history ++ (call ∷ [])) (foreign server.err_handler_timeout)
  Escapes ctx call (some v) y =
      (y.panic_chan ≡ some v)
      × (y.ctx.sent ≡ server.on_error ctx.history (foreign server.err_handler_timeout))

  within-Escapes :
      (x : State F) (call : Call) (calls : List Call) (ending : Ending F) (reply : Option (Any F))
      → refusal server call x.ctx.sent ≡ reply
      → x.ctx.sent ≡ []
      → Escapes x.ctx call reply (
          run server
            (handler_turn ∷ middleware_turn ∷ middleware_turn ∷ [])
            (within call calls ending x))
  unfolding within run step proceed advance direct_call end_handler send enter_timeout leave_timeout
      answer_timeout context_error
  within-Escapes x call calls ending none e nothing =
      let history = x.ctx.history ++ (call ∷ []) in
      rw e (
        call_all-sent server (server.on_error history (foreign server.err_handler_timeout))
          (send call (record (enter_timeout x.ctx) { history = history })) refl
        ∙ ap
            (λ before.
              (before ++ (call ∷ []))
              ++ server.on_error history (foreign server.err_handler_timeout))
            nothing)
  within-Escapes x call calls ending (some v) e nothing = rw e (
    refl,
    call_all-sent server (server.on_error x.ctx.history (foreign server.err_handler_timeout))
          (enter_timeout x.ctx) refl
        ∙ ap
            (λ before. before ++ server.on_error x.ctx.history (foreign server.err_handler_timeout))
            nothing,
  )

  -- The handler's next call, whatever it is and whatever came before, reaches the client before the answer
  -- to the time-out when the handler makes it while the original writer is switched to; unless it is a
  -- status that the original writer refuses, where the handler panics and the answer is all.
  pub escaped_call :
      (calls : List Call) (ending : Ending F) (turns : List Turn) (call : Call) (rest : List Call)
      (ending' : Ending F)
      → (run server turns (begin calls ending)).middleware ≡ waiting
      → (run server turns (begin calls ending)).goroutine ≡ running (call ∷ rest) ending'
      → let x = run server turns (begin calls ending) in
        Escapes x.ctx call (refusal server call []) (run server time_out_around_handler x)
  unfolding Unsent begin is_apart new_timeout_handler_ctx
  escaped_call calls ending turns call rest ending' waits runs =
      let x = run server turns (begin calls ending) in
      let (out, nothing, apart) =
        run-Unsent server turns (begin calls ending) (λ e. (refl, refl, refl)) waits in
      subst {A = State F} (Escapes x.ctx call (refusal server call []))
        (sym (around-within x call rest ending' waits runs))
        (within-Escapes x call rest ending' (refusal server call [])
          (ap (refusal server call) nothing) nothing)

  call_response-writer :
      (call : Call) (self : HandlerCtx F)
      → self.installed ≡ original
      → ((call_response call self).writer ≡ self.writer)
        × ((call_response call self).reported ≡ self.reported)
        × ((call_response call self).installed ≡ original)
  unfolding call_response send
  call_response-writer call self direct = ground arith

  call_all-writer :
      (calls : List Call) (self : HandlerCtx F)
      → self.installed ≡ original
      → ((call_all calls self).writer ≡ self.writer)
        × ((call_all calls self).reported ≡ self.reported)
  unfolding call_all
  call_all-writer [] self direct = (refl, refl)
  call_all-writer (call ∷ calls) self direct =
      let (writer, reported, direct') = call_response-writer call self direct in
      let (writer', reported') = call_all-writer calls (call_response call self) direct' in
      (writer' ∙ writer, reported' ∙ reported)

  handle_timeout-writer :
      (self : HandlerCtx F)
      → ((handle_timeout server self).writer.body ≡ false)
        × ((handle_timeout server self).writer.has_timed_out ≡ true)
        × ((handle_timeout server self).reported ≡ self.reported)
  unfolding handle_timeout leave_timeout answer_timeout enter_timeout context_error free_buffer
  handle_timeout-writer self =
      let (writer, reported) =
        call_all-writer (server.on_error self.history (foreign server.err_handler_timeout))
          (enter_timeout self) refl in
      (ap (λ w. w.body) writer, ap (λ w. w.has_timed_out) writer, reported)

  unfoldable Panics : State F → State F → Type 0
  Panics x y =
      let error = foreign server.nil_dereference in
      (y.panic_chan ≡ some (an_error error))
      × (y.ctx.reported ≡ x.ctx.reported ++ (executing server (some error) ∷ []))

  locked_write-Panics :
      (x : State F) (body : String) (calls : List Call) (ending : Ending F)
      → x.middleware ≡ returning
      → x.goroutine ≡ locking (write body) calls ending
      → x.ctx.writer.body ≡ false
      → x.ctx.writer.has_timed_out ≡ true
      → Panics x (run server (handler_turn ∷ handler_turn ∷ []) x)
  unfolding Panics run step advance locked_call end_handler perform needs_lock is_locked
      handle_panicked_after_timeout report error_of
  locked_write-Panics x body calls ending returns' locks freed late = ground arith

  -- A `Write` that has passed its tests and waits for the lock while the time runs out panics on the nil
  -- buffer; the panic is signalled and reported as executing after the time-out.
  pub nil_buffer_panic :
      (x : State F) (body : String) (calls : List Call) (ending : Ending F)
      → x.middleware ≡ waiting
      → x.goroutine ≡ locking (write body) calls ending
      → let y = run server (handler_turn ∷ handler_turn ∷ []) (run server time_out x) in
        let error = foreign server.nil_dereference in
        (y.panic_chan ≡ some (an_error error))
        × (y.ctx.reported ≡ x.ctx.reported ++ (executing server (some error) ∷ []))
  unfolding Panics
  nil_buffer_panic x body calls ending waits locks =
      let (freed, late, reported) = handle_timeout-writer x.ctx in
      let course = run-time_out server x waits in
      let next = record x { ctx = handle_timeout server x.ctx; middleware = returning } in
      let (panic, report') = locked_write-Panics next body calls ending refl locks freed late in
      let turns = handler_turn ∷ handler_turn ∷ [] in
      (
        ap (λ y. (run server turns y).panic_chan) course ∙ panic,
        ap (λ y. (run server turns y).ctx.reported) course
            ∙ report'
            ∙ ap
                (λ before.
                  before ++ (executing server (some (foreign server.nil_dereference)) ∷ []))
                reported,
      )

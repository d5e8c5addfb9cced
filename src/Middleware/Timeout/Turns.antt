-- ===== src/Middleware/Timeout/Turns.antt =====
-- `Timeout.Handle` of middleware/timeout.go: the goroutine of the handler and the middleware take turns
-- in any order. The writes of either are seen by the other at once, as if there were no data races.
use kit_legacy.Base.{
  ◌&&◌, Bool, true, false, Option, none, some, List, [], ◌∷◌, ◌++◌, if◌then◌else◌,
}
use kit_legacy.Errors.Value.{GoError, foreign, ErrorsLib}
use kit_legacy.World.Event.{Any, an_error}
use kit_legacy.World.Action.{Outcome, returned, panicked}
use kit_legacy.Middleware.Timeout.Writer.{Call, edit_headers, ignores}
use kit_legacy.Middleware.Timeout.Exchange.{
  Server, original, timeout, HandlerCtx, new_timeout_handler_ctx, send, perform, refusal,
  handle_panicked, answer_error, handle_finished, enter_timeout, answer_timeout, leave_timeout,
  handle_panicked_after_timeout, handle_finished_after_timeout,
}

-- How the handler ends.
pub data Ending (F : Type 0) : Type 0 where
  returns : Option (GoError F) → Ending F
  panics : Any F → Ending F

-- The goroutine: with the calls left; with a call that has passed the tests of the time-out writer and
-- waits for its lock; with a call that has got the original writer; with its signal sent; at its end.
pub data Goroutine (F : Type 0) : Type 0 where
  running : List Call → Ending F → Goroutine F
  locking : Call → List Call → Ending F → Goroutine F
  holding : Call → List Call → Ending F → Goroutine F
  finished : Goroutine F
  failed : Any F → Goroutine F
  gone : Goroutine F

-- The middleware: at `select`; in `handleFinished` before and behind `ctx.Error`; in `handleTimeout`,
-- under the lock, before and behind `ctx.Error`; at `return`; at its end.
pub data Middleware (F : Type 0) : Type 0 where
  waiting finishing copying answering leaving returning : Middleware F
  ended : Outcome F (Option (GoError F)) → Middleware F

pub record State (F : Type 0) : Type 0 where
  pub ctx : HandlerCtx F
  pub goroutine : Goroutine F
  pub middleware : Middleware F
  pub finish_chan : Bool
  pub panic_chan : Option (Any F)

-- Whose turn it is: the goroutine's, a case of `select`, or the middleware's in the case taken. A turn
-- that is not possible changes nothing.
pub data Turn : Type 0 where
  handler_turn finish_turn panic_turn timeout_turn middleware_turn : Turn

unfoldable pub begin : {F : Type 0} → List Call → Ending F → State F
begin calls ending = record {
  ctx = new_timeout_handler_ctx;
  goroutine = running calls ending;
  middleware = waiting;
  finish_chan = false;
  panic_chan = none;
}

unfoldable pub is_locked : {F : Type 0} → Middleware F → Bool
is_locked answering = true
is_locked leaving = true
is_locked _ = false

-- The map that `Header()` gives is edited without the lock.
unfoldable pub needs_lock : Call → Bool
needs_lock (edit_headers change) = false
needs_lock _ = true

module _ {F : Type 0} where
  -- A call that has returned: echo counts a status as written when `WriteHeader` of the writer is back.
  abbrev pub note : Call → HandlerCtx F → HandlerCtx F
  note call ctx = record ctx { history = ctx.history ++ (call ∷ []) }

  -- `Response().Writer` is read, and the tests of the time-out writer are made.
  unfoldable pub start_call :
      Call → List Call → Ending F → HandlerCtx F → HandlerCtx F × Goroutine F
  start_call call calls ending ctx = elim ctx.installed [
    | original ↦ (ctx, holding call calls ending)
    | timeout ↦
        if ignores ctx.writer call
        then (note call ctx, running calls ending)
        else (ctx, locking call calls ending)
  ]

module _ {F : Type 0} ⦃lib : ErrorsLib F⦄ (server : Server F) where
  -- The end of the handler, with its signal.
  unfoldable pub end_handler : Ending F → State F → State F
  end_handler (returns err) self = record self {
    ctx = record self.ctx { handler_error = err };
    goroutine = finished;
    finish_chan = true;
  }
  end_handler (panics v) self = record self { goroutine = failed v; panic_chan = some v }

  -- The call of the time-out writer, or the panic of `Write` on the nil buffer.
  unfoldable pub locked_call : Call → List Call → Ending F → State F → State F
  locked_call call calls ending self = elim (perform call self.ctx) [
    | some done ↦ record self { ctx = note call done; goroutine = running calls ending }
    | none ↦ end_handler (panics (an_error (foreign server.nil_dereference))) self
  ]

  -- The call of the original writer, with what it panics with.
  unfoldable pub direct_call : Option (Any F) → Call → List Call → Ending F → State F → State F
  direct_call none call calls ending self = record self {
    ctx = note call (send call self.ctx);
    goroutine = running calls ending;
  }
  direct_call (some v) call calls ending self = end_handler (panics v) self

  unfoldable pub advance : Goroutine F → State F → State F
  advance (running (call ∷ calls) ending) self =
      let (ctx, next) = start_call call calls ending self.ctx in
      record self { ctx = ctx; goroutine = next }
  advance (running [] ending) self = end_handler ending self
  advance (locking call calls ending) self =
      if needs_lock call && is_locked self.middleware
      then self
      else locked_call call calls ending self
  advance (holding call calls ending) self =
      direct_call (refusal server call self.ctx.sent) call calls ending self
  advance finished self =
      if is_locked self.middleware
      then self
      else record self { ctx = handle_finished_after_timeout server self.ctx; goroutine = gone }
  advance (failed v) self =
      if is_locked self.middleware
      then self
      else record self { ctx = handle_panicked_after_timeout server v self.ctx; goroutine = gone }
  advance gone self = self

  -- The middleware behind `handleFinished`, which may have panicked.
  unfoldable pub after_finished : State F → HandlerCtx F × Option (Any F) → State F
  after_finished self (ctx, none) = record self { ctx = ctx; middleware = returning }
  after_finished self (ctx, some v) = record self { ctx = ctx; middleware = ended (panicked v) }

  unfoldable pub proceed : Middleware F → State F → State F
  proceed finishing self = record self { ctx = answer_error server self.ctx; middleware = copying }
  proceed copying self = after_finished self (handle_finished server self.ctx)
  proceed answering self = record self {
    ctx = answer_timeout server self.ctx;
    middleware = leaving;
  }
  proceed leaving self = record self { ctx = leave_timeout self.ctx; middleware = returning }
  proceed returning self = record self { middleware = ended (returned self.ctx.handler_error) }
  proceed _ self = self

  -- The cases of `select`.
  unfoldable pub select_finish : Middleware F → State F → State F
  select_finish waiting self =
      if self.finish_chan then record self { middleware = finishing } else self
  select_finish _ self = self

  unfoldable pub select_panic : Middleware F → State F → State F
  select_panic waiting self = elim self.panic_chan [
    | some v ↦ record self { ctx = handle_panicked self.ctx; middleware = ended (panicked v) }
    | none ↦ self
  ]
  select_panic _ self = self

  unfoldable pub select_timeout : Middleware F → State F → State F
  select_timeout waiting self = record self { ctx = enter_timeout self.ctx; middleware = answering }
  select_timeout _ self = self

  unfoldable pub step : Turn → State F → State F
  step handler_turn self = advance self.goroutine self
  step finish_turn self = select_finish self.middleware self
  step panic_turn self = select_panic self.middleware self
  step timeout_turn self = select_timeout self.middleware self
  step middleware_turn self = proceed self.middleware self

  unfoldable pub run : List Turn → State F → State F
  run [] self = self
  run (turn ∷ turns) self = run turns (step turn self)

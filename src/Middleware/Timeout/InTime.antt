-- ===== src/Middleware/Timeout/InTime.antt =====
-- What reaches the client when the handler finishes on time.
use kit_legacy.Base.{
  ℕ, ℤ, String, ◌≡◌, refl, ◌∙◌, sym, ap, ◌≤◌, ◌*◌, ◌+◌, true, Option, none, some, List, [], ◌∷◌,
  ◌++◌, length, replicate, arith,
}
use mathlib.Core.List.{append_assoc}
use kit_legacy.Errors.Value.{GoError, ErrorsLib}
use kit_legacy.World.Event.{Any}
use kit_legacy.World.Action.{returned, panicked}
use kit_legacy.Middleware.Timeout.Writer.{Call, write_header, write, new_timeout_response_writer}
use kit_legacy.Middleware.Timeout.Exchange.{
  Server, HandlerCtx, send, copy, free, handle_finished, finish_copy, copy_headers, answer_error,
  call_all, context_error, new_timeout_handler_ctx,
}
use kit_legacy.Middleware.Timeout.Calls.{
  call_all-append, call_all-history, copy_headers-sent, copy-error, with_error, call_all-with_error,
}
use kit_legacy.Middleware.Timeout.Response.{
  headers_of, status_of, put_all, response, IsOpen, LeavesAll, call_all-LeavesAll,
  call_all-status_of,
}
use kit_legacy.Middleware.Timeout.Turns.{
  returns, waiting, ended, State, Turn, handler_turn, finish_turn, middleware_turn, begin,
  after_finished, proceed, select_finish, step, run,
}
use kit_legacy.Middleware.Timeout.OnTime.{Done, run_calls}

-- `handleFinished` in the order of its turns.
abbrev pub finish : List Turn
finish = finish_turn ∷ middleware_turn ∷ middleware_turn ∷ middleware_turn ∷ []

module _ {F : Type 0} ⦃lib : ErrorsLib F⦄ (server : Server F) where
  -- All calls of a handler that ends with `err`: its own, and those that answer the error.
  abbrev pub all_calls : List Call → Option (GoError F) → List Call
  all_calls calls none = calls
  all_calls calls (some err) = calls ++ server.on_error calls err

  abbrev start : HandlerCtx F
  start = new_timeout_handler_ctx

  answer_error-call_all :
      (calls : List Call) (err : Option (GoError F))
      → answer_error server (with_error err (call_all calls start))
        ≡ with_error err (call_all (all_calls calls err) start)
  unfolding answer_error context_error with_error new_timeout_handler_ctx
  answer_error-call_all calls none = refl
  answer_error-call_all calls (some err) =
      ap
        (λ before.
          call_all (server.on_error before err) (with_error (some err) (call_all calls start)))
        (call_all-history calls start)
      ∙ call_all-with_error (server.on_error calls err) (some err) (call_all calls start)
      ∙ ap (with_error (some err)) (sym (call_all-append calls (server.on_error calls err) start))

  run-finish :
      (x : State F)
      → x.finish_chan ≡ true
      → x.middleware ≡ waiting
      → let c = answer_error server x.ctx in
        server.header_panic (copy_headers c.writer.headers c).sent c.writer.status_code ≡ none
        → server.write_error (copy c).sent ≡ none
        → run server finish x
          ≡ record x { ctx = free (copy c); middleware = ended (returned (copy c).handler_error) }
  unfolding run step select_finish proceed handle_finished finish_copy after_finished free
  run-finish x ready waits valid accepted = ground arith

  -- A status that the server refuses.
  run-refused :
      (x : State F) (v : Any F)
      → x.finish_chan ≡ true
      → x.middleware ≡ waiting
      → let c = answer_error server x.ctx in
        server.header_panic (copy_headers c.writer.headers c).sent c.writer.status_code ≡ some v
        → run server finish x
          ≡ record x { ctx = copy_headers c.writer.headers c; middleware = ended (panicked v) }
  unfolding run step select_finish proceed handle_finished after_finished
  run-refused x v ready waits refused = ground arith

  copy-sent :
      (calls : List Call) (err : Option (GoError F))
      → (copy (with_error err (call_all calls start))).sent ≡ response calls
  unfolding copy response send new_timeout_handler_ctx new_timeout_response_writer LeavesAll IsOpen
      with_error
  copy-sent calls err =
      let last = call_all calls start in
      let (headers, body, nothing, same) = call_all-LeavesAll calls start (refl, refl, refl) in
      let status = call_all-status_of calls start (refl, refl, refl) refl refl in
      let tail = λ (s : ℤ) (b : String). write_header s ∷ write b ∷ [] in
      ap
        (λ (c : HandlerCtx F).
          c.sent ++ (write_header last.writer.status_code ∷ []) ++ (write last.buffer ∷ []))
        (copy_headers-sent last.writer.headers (with_error err last))
      ∙ ap
          (λ before.
            (before ++ put_all last.writer.headers)
            ++ (write_header last.writer.status_code ∷ [])
            ++ (write last.buffer ∷ []))
          nothing
      ∙ append_assoc (put_all last.writer.headers) (write_header last.writer.status_code ∷ [])
          (write last.buffer ∷ [])
      ∙ ap (λ hs. put_all hs ++ tail last.writer.status_code last.buffer) headers
      ∙ ap (λ s. put_all (headers_of calls []) ++ tail s last.buffer) status
      ∙ ap (λ b. put_all (headers_of calls []) ++ tail (status_of calls) b) body

  named-sent :
      (calls : List Call) (err : Option (GoError F))
      → let c = with_error err (call_all calls start) in
        ((copy_headers c.writer.headers c).sent ≡ put_all (headers_of calls []))
        × (c.writer.status_code ≡ status_of calls)
  unfolding new_timeout_handler_ctx new_timeout_response_writer LeavesAll IsOpen with_error
  named-sent calls err =
      let last = call_all calls start in
      let (headers, body, nothing, same) = call_all-LeavesAll calls start (refl, refl, refl) in
      (
        ap (λ (c : HandlerCtx F). c.sent)
              (copy_headers-sent last.writer.headers (with_error err last))
            ∙ ap (λ before. before ++ put_all last.writer.headers) nothing
            ∙ ap put_all headers,
        call_all-status_of calls start (refl, refl, refl) refl refl,
      )

  -- The headers and the status that the server is given.
  answered-named :
      (c : HandlerCtx F) (calls : List Call) (err : Option (GoError F))
      → c ≡ with_error err (call_all calls start)
      → server.header_panic (copy_headers c.writer.headers c).sent c.writer.status_code
        ≡ server.header_panic (put_all (headers_of calls [])) (status_of calls)
  answered-named c calls err same =
      let (named, status) = named-sent calls err in
      ap
        (λ (c : HandlerCtx F).
          server.header_panic (copy_headers c.writer.headers c).sent c.writer.status_code)
        same
      ∙ ap
          (λ sent.
            server.header_panic sent (with_error err (call_all calls start)).writer.status_code)
          named
      ∙ ap (server.header_panic (put_all (headers_of calls []))) status

  -- A handler that returns before the time is up, whatever it calls and returns: if the server accepts
  -- the first status and the body, the client receives each header once, the first status and all bodies
  -- in order, those of the answer to its error included; and the middleware returns the handler's error.
  -- Two turns for each call and one more are enough for the handler.
  pub in_time_sent :
      (calls : List Call) (err : Option (GoError F)) (n : ℕ)
      → 2 * length calls + 1 ≤ n
      → let all = all_calls calls err in
        server.header_panic (put_all (headers_of all [])) (status_of all) ≡ none
        → server.write_error (response all) ≡ none
        → let x =
            run server finish (run server (replicate n handler_turn) (begin calls (returns err))) in
          (x.middleware ≡ ended (returned err)) × (x.ctx.sent ≡ response all)
  unfolding Done IsOpen begin new_timeout_handler_ctx new_timeout_response_writer with_error copy
      send free
  in_time_sent calls err n enough valid accepted =
      let x = run server (replicate n handler_turn) (begin calls (returns err)) in
      let (same, ready, waits) =
        run_calls server calls err n (begin calls (returns err)) enough refl (refl, refl, refl)
          refl in
      let answered = ap (answer_error server) same ∙ answer_error-call_all calls err in
      let sent = ap (λ c. (copy c).sent) answered ∙ copy-sent (all_calls calls err) err in
      let error =
        copy-error (answer_error server x.ctx)
        ∙ ap (λ (c : HandlerCtx F). c.handler_error) answered in
      let status = answered-named (answer_error server x.ctx) (all_calls calls err) err answered in
      let course =
        run-finish x ready waits (status ∙ valid) (ap server.write_error sent ∙ accepted) in
      (
        ap (λ y. y.middleware) course ∙ ap (λ e. ended (returned e)) error,
        ap (λ y. y.ctx.sent) course ∙ sent,
      )

  -- Where the server's `WriteHeader` panics on the first status of a handler that returns before the time
  -- is up, the answer to its error included, as net/http does on the 0 that stands where no status was
  -- written: the middleware panics with the same value, and the client receives the headers alone.
  pub in_time_panics :
      (calls : List Call) (err : Option (GoError F)) (n : ℕ) (v : Any F)
      → 2 * length calls + 1 ≤ n
      → let all = all_calls calls err in
        server.header_panic (put_all (headers_of all [])) (status_of all) ≡ some v
        → let x =
            run server finish (run server (replicate n handler_turn) (begin calls (returns err))) in
          (x.middleware ≡ ended (panicked v)) × (x.ctx.sent ≡ put_all (headers_of all []))
  unfolding Done IsOpen begin new_timeout_handler_ctx new_timeout_response_writer with_error
  in_time_panics calls err n v enough refused =
      let x = run server (replicate n handler_turn) (begin calls (returns err)) in
      let (same, ready, waits) =
        run_calls server calls err n (begin calls (returns err)) enough refl (refl, refl, refl)
          refl in
      let all = all_calls calls err in
      let answered = ap (answer_error server) same ∙ answer_error-call_all calls err in
      let status = answered-named (answer_error server x.ctx) all err answered in
      let course = run-refused x v ready waits (status ∙ refused) in
      (
        ap (λ y. y.middleware) course,
        ap (λ y. y.ctx.sent) course
            ∙ ap (λ (c : HandlerCtx F). (copy_headers c.writer.headers c).sent) answered
            ∙ (named-sent all err).0,
      )

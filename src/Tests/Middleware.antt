-- ===== src/Tests/Middleware.antt =====
-- The time-out middleware on a small server.
use kit_legacy.Base.{
  ℤ, negsuc, ltb, ◌||◌, Option, if◌then◌else◌, replicate, ◌⊎◌, true, false, pos, String, ◌≡◌, refl,
  none, some, List, [], ◌∷◌, arith,
}
use kit_legacy.Errors.Value.{GoError, foreign}
use kit_legacy.World.Event.{Any, an_error}
use kit_legacy.World.Action.{returned, panicked}
use kit_legacy.Middleware.Timeout.Writer.{
  Call, edit_headers, write_header, write, put, ignores, put_status, new_timeout_response_writer,
  free_buffer,
}
use kit_legacy.Middleware.Timeout.Exchange.{
  Server, new_timeout_handler_ctx, executing, perform, refusal, enter_timeout,
}
use kit_legacy.Middleware.Timeout.Turns.{
  returns, handler_turn, timeout_turn, middleware_turn, select_timeout, begin, run, step, advance,
  start_call, locked_call, needs_lock, is_locked, ended,
}
use kit_legacy.Middleware.Timeout.Response.{response, put_all, headers_of, status_of, body_of}
use kit_legacy.Middleware.Timeout.InTime.{finish, in_time_sent, in_time_panics}
use kit_legacy.Middleware.Timeout.Late.{time_out, timed_out_sent}
use kit_legacy.Middleware.Timeout.Races.{time_out_around_handler, escaped_call, nil_buffer_panic}
use kit_legacy.Middleware.Timeout.Accounts.{IsReported}
use kit_legacy.Middleware.Timeout.Reports.{is_gone, reports_once, late_handler_reported}
use kit_legacy.Tests.Libs.{plain_errors}

-- An exception handler that writes unless a status has been written.
abbrev answer : List Call → List Call
answer [] = write_header (pos 503) ∷ write "failed" ∷ []
answer (write_header code ∷ calls) = []
answer (_ ∷ calls) = answer calls

-- The check of the status of net/http, while no status is written.
abbrev check_status : List Call → ℤ → Option (Any String)
check_status (write_header _ ∷ calls) status = none
check_status (_ ∷ calls) status = check_status calls status
check_status [] (negsuc n) = some (Any.a_string "invalid WriteHeader code")
check_status [] (pos n) =
    if ltb n 100 || ltb 999 n then some (Any.a_string "invalid WriteHeader code") else none

abbrev server : Server String
server = record {
  header_panic = check_status;
  on_error = λ history err. answer history;
  write_error = λ sent. none;
  err_handler_timeout = "http: Handler timeout";
  nil_dereference = "nil pointer dereference";
  method = "GET";
  request_uri = "/";
}

abbrev two_writes : List Call
two_writes = write_header (pos 201) ∷ write "a" ∷ write_header (pos 500) ∷ write "b" ∷ []

in_time_sent_example :
    let x =
      run server finish (run server (replicate 9 handler_turn) (begin two_writes (returns none))) in
    (x.middleware ≡ ended (returned none)) × (x.ctx.sent ≡ write_header (pos 201) ∷ write "ab" ∷ [])
unfolding response put_all headers_of status_of body_of
in_time_sent_example = in_time_sent server two_writes none 9 (omega arith) refl refl

-- A handler that returns at once.
in_time_panics_example :
    let x = run server finish (run server (replicate 1 handler_turn) (begin [] (returns none))) in
    (x.middleware ≡ ended (panicked (Any.a_string "invalid WriteHeader code"))) × (x.ctx.sent ≡ [])
unfolding put_all headers_of status_of
in_time_panics_example =
    in_time_panics server [] none 1 (Any.a_string "invalid WriteHeader code") (omega arith) refl

abbrev slow : List Call
slow = edit_headers (put "Server" ("kit" ∷ [])) ∷ two_writes

timed_out_sent_example :
    (run server (replicate 9 handler_turn) (
      run server time_out
        (run server (replicate 2 handler_turn) (begin slow (returns none))))).ctx.sent
    ≡ write_header (pos 503) ∷ write "failed" ∷ []
unfolding run step advance begin start_call locked_call new_timeout_handler_ctx ignores
    new_timeout_response_writer needs_lock is_locked perform
timed_out_sent_example =
    timed_out_sent server slow (returns none) (replicate 2 handler_turn) (replicate 9 handler_turn)
      refl

-- A handler that has written a status gets the time-out answered with nothing.
committed_test :
    (run server (replicate 9 handler_turn) (
      run server time_out
        (run server (replicate 2 handler_turn) (begin two_writes (returns none))))).ctx.sent
    ≡ []
unfolding run step advance begin start_call locked_call new_timeout_handler_ctx ignores
    new_timeout_response_writer needs_lock is_locked perform
committed_test =
    timed_out_sent server two_writes (returns none) (replicate 2 handler_turn)
      (replicate 9 handler_turn) refl

-- One that waits for the lock with its status gets the time-out answered like any other.
waiting_test :
    (run server (replicate 9 handler_turn) (
      run server time_out
        (run server (replicate 1 handler_turn) (begin two_writes (returns none))))).ctx.sent
    ≡ write_header (pos 503) ∷ write "failed" ∷ []
unfolding run step advance begin start_call locked_call new_timeout_handler_ctx ignores
    new_timeout_response_writer needs_lock is_locked perform
waiting_test =
    timed_out_sent server two_writes (returns none) (replicate 1 handler_turn)
      (replicate 9 handler_turn) refl

escaped_call_example :
    (run server time_out_around_handler
      (run server (replicate 2 handler_turn) (begin slow (returns none)))).ctx.sent
    ≡ write_header (pos 201) ∷ []
unfolding run step advance begin start_call locked_call new_timeout_handler_ctx ignores
    new_timeout_response_writer needs_lock is_locked perform refusal
escaped_call_example =
    escaped_call server slow (returns none) (replicate 2 handler_turn) (write_header (pos 201))
      (write "a" ∷ write_header (pos 500) ∷ write "b" ∷ []) (returns none) refl refl

abbrev nil_error : GoError String
nil_error = foreign "nil pointer dereference"

nil_buffer_panic_example :
    let y = run server (replicate 2 handler_turn) (
      run server time_out
        (run server (replicate 3 handler_turn) (begin two_writes (returns none)))) in
    (y.panic_chan ≡ some (an_error nil_error))
    × (y.ctx.reported ≡ executing server (some nil_error) ∷ [])
unfolding run step advance begin start_call locked_call new_timeout_handler_ctx ignores
    new_timeout_response_writer needs_lock is_locked perform put_status
nil_buffer_panic_example =
    nil_buffer_panic server
      (run server (replicate 3 handler_turn) (begin two_writes (returns none))) "a"
      (write_header (pos 500) ∷ write "b" ∷ []) (returns none) refl refl

-- A handler that has made one of its calls when the time is up.
reports_once_example :
    let x = run server (replicate 9 handler_turn) (begin two_writes (returns none)) in
    (x.ctx.reported ≡ []) ⊎ ((is_gone x.goroutine ≡ true) × IsReported server x)
reports_once_example = reports_once server two_writes (returns none) (replicate 9 handler_turn)

late_handler_reported_example :
    let x =
      run server
        (middleware_turn ∷ middleware_turn ∷ replicate 9 handler_turn)
        (run server (handler_turn ∷ timeout_turn ∷ []) (begin two_writes (returns none))) in
    ((is_gone x.goroutine ≡ false) × (x.ctx.reported ≡ []))
    ⊎ ((is_gone x.goroutine ≡ true) × IsReported server x)
unfolding run step advance begin start_call new_timeout_handler_ctx ignores
    new_timeout_response_writer is_gone select_timeout enter_timeout free_buffer
late_handler_reported_example =
    late_handler_reported server two_writes (returns none) (handler_turn ∷ timeout_turn ∷ [])
      (middleware_turn ∷ middleware_turn ∷ replicate 9 handler_turn) refl refl

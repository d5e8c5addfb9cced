-- ===== src/Middleware/Timeout/Exchange.antt =====
-- The state that the middleware and the handler share, and the methods of `Timeout` on it.
use kit_legacy.Base.{ℤ, String, ◌&◌, true, Option, none, some, List, [], ◌∷◌, ◌++◌, if◌then◌else◌}
use kit_legacy.Errors.Value.{GoError, foreign, ErrorsLib}
use kit_legacy.Errors.Error.{to_error, with_message, withf, wrap}
use kit_legacy.Errors.Builtin.{err_server_generic, err_server_timed_out}
use kit_legacy.World.Event.{Any, an_error, text_of_any}
use kit_legacy.Middleware.Timeout.Writer.{
  Headers, Call, edit_headers, write_header, write, put, TimeoutWriter, new_timeout_response_writer,
  ignores, put_status, edit, free_buffer,
}

-- What the middleware relies on of echo and net/http: the calls by which `ctx.Error` answers an error,
-- after the calls through the response that have returned (an exception handler writes nothing on a committed
-- response); what the server's `WriteHeader` panics with on a status, after the calls that it got so far
-- (net/http panics on a status below 100 or above 999, such as the 0 of a writer that got none, while no
-- status is written); the reply of its `Write`; the value of `http.ErrHandlerTimeout`; the run-time error
-- of a nil dereference; the request.
pub record Server (F : Type 0) : Type 0 where
  pub on_error : List Call → GoError F → List Call
  pub header_panic : List Call → ℤ → Option (Any F)
  pub write_error : List Call → Option (GoError F)
  pub err_handler_timeout : F
  pub nil_dereference : F
  pub method : String
  pub request_uri : String

-- Which writer `ctx.Response().Writer` is.
pub data Installed : Type 0 where
  original timeout : Installed

-- `_timeoutHandlerCtx`, with the calls through the response that have returned and those that the original
-- writer received, oldest first, and the errors given to the observer.
pub record HandlerCtx (F : Type 0) : Type 0 where
  pub writer : TimeoutWriter
  pub buffer : String
  pub installed : Installed
  pub history : List Call
  pub sent : List Call
  pub handler_error : Option (GoError F)
  pub reported : List (GoError F)

unfoldable pub new_timeout_handler_ctx : {F : Type 0} → HandlerCtx F
new_timeout_handler_ctx = record {
  writer = new_timeout_response_writer;
  buffer = "";
  installed = timeout;
  history = [];
  sent = [];
  handler_error = none;
  reported = [];
}

module _ {F : Type 0} where
  -- A call that the original writer receives.
  unfoldable pub send : Call → HandlerCtx F → HandlerCtx F
  send call self = record self { sent = self.sent ++ (call ∷ []) }

  -- What a call panics with on the original writer, after the calls that it got.
  unfoldable pub refusal : Server F → Call → List Call → Option (Any F)
  refusal server (write_header status_code) sent = server.header_panic sent status_code
  refusal server call sent = none

  -- A call of the time-out writer behind its tests; `none` stands for the panic of a `Write` on the nil
  -- buffer.
  unfoldable pub perform : Call → HandlerCtx F → Option (HandlerCtx F)
  perform (edit_headers change) self = some (record self { writer = edit self.writer change })
  perform (write_header status_code) self =
      some (record self { writer = put_status self.writer status_code })
  perform (write body) self =
      if self.writer.body then some (record self { buffer = self.buffer & body }) else none

  -- A whole call through the response while nothing else runs. The tests and the writer agree then, so
  -- that no `Write` meets a nil buffer.
  unfoldable pub call_response : Call → HandlerCtx F → HandlerCtx F
  call_response call self =
      let noted = record self { history = self.history ++ (call ∷ []) } in
      elim self.installed [
        | original ↦ send call noted
        | timeout ↦
            if ignores self.writer call
            then noted
            else elim (perform call noted) [ some done ↦ done | none ↦ noted ]
      ]

  unfoldable pub call_all : List Call → HandlerCtx F → HandlerCtx F
  call_all [] self = self
  call_all (call ∷ calls) self = call_all calls (call_response call self)

  -- `ctx.Error(err)`
  unfoldable pub context_error : Server F → GoError F → HandlerCtx F → HandlerCtx F
  context_error server err self = call_all (server.on_error self.history err) self

  unfoldable pub free : HandlerCtx F → HandlerCtx F
  free self = record self { writer = free_buffer self.writer }

  unfoldable pub handle_panicked : HandlerCtx F → HandlerCtx F
  handle_panicked self = record (free self) { installed = original }

  -- `handleFinished` before its lock
  unfoldable pub answer_error : Server F → HandlerCtx F → HandlerCtx F
  answer_error server self = elim self.handler_error [
    | none ↦ self
    | some err ↦ context_error server err self
  ]

  unfoldable pub copy_headers : Headers → HandlerCtx F → HandlerCtx F
  copy_headers [] self = self
  copy_headers ((k, v) ∷ headers) self = copy_headers headers (send (edit_headers (put k v)) self)

  -- what the original writer has got before the last error check of `handleFinished`
  unfoldable pub copy : HandlerCtx F → HandlerCtx F
  copy self =
      send (write self.buffer)
        (send (write_header self.writer.status_code) (copy_headers self.writer.headers self))

  -- the end of `handleFinished`, with what it panics with
  unfoldable pub finish_copy : Server F → HandlerCtx F → HandlerCtx F × Option (Any F)
  finish_copy server copied = elim (server.write_error copied.sent) [
    | some err ↦ (copied, some (an_error err))
    | none ↦ (free copied, none)
  ]

  -- `handleFinished` under its lock: `WriteHeader` of the original writer may panic, or the code on the
  -- error of its `Write`.
  unfoldable pub handle_finished : Server F → HandlerCtx F → HandlerCtx F × Option (Any F)
  handle_finished server self =
      let named = copy_headers self.writer.headers self in
      elim (server.header_panic named.sent self.writer.status_code) [
        | some v ↦ (named, some v)
        | none ↦ finish_copy server (copy self)
      ]

  -- `handleTimeout` in three parts, between which the handler may run: up to the switch to the original
  -- writer, the answer, and the switch back.
  unfoldable pub enter_timeout : HandlerCtx F → HandlerCtx F
  enter_timeout self = record self {
    writer = free_buffer (record self.writer { has_timed_out = true });
    installed = original;
  }

  unfoldable pub answer_timeout : Server F → HandlerCtx F → HandlerCtx F
  answer_timeout server self = context_error server (foreign server.err_handler_timeout) self

  unfoldable pub leave_timeout : HandlerCtx F → HandlerCtx F
  leave_timeout self = record self { installed = timeout }

  unfoldable pub handle_timeout : Server F → HandlerCtx F → HandlerCtx F
  handle_timeout server self = leave_timeout (answer_timeout server (enter_timeout self))

module _ {F : Type 0} ⦃lib : ErrorsLib F⦄ (server : Server F) where
  unfoldable pub executing : Option (GoError F) → GoError F
  executing err = to_error (
      wrap
        (withf err_server_timed_out ("after executing " & server.method & " " & server.request_uri))
        err)

  -- `err, ok := rec.(error); if !ok { … }`
  unfoldable pub error_of : Any F → GoError F
  error_of (an_error err) = err
  error_of v = to_error (with_message err_server_generic (text_of_any v))

  unfoldable pub report : Option (GoError F) → HandlerCtx F → HandlerCtx F
  report err self =
      if self.writer.has_timed_out
      then record self { reported = self.reported ++ (executing err ∷ []) }
      else self

  unfoldable pub handle_panicked_after_timeout : Any F → HandlerCtx F → HandlerCtx F
  handle_panicked_after_timeout v self = report (some (error_of v)) self

  unfoldable pub handle_finished_after_timeout : HandlerCtx F → HandlerCtx F
  handle_finished_after_timeout self = report self.handler_error self

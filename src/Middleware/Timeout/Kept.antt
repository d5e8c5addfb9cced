-- ===== src/Middleware/Timeout/Kept.antt =====
-- What the turns of the middleware leave as it is: the goroutine, its signals and the reports.
use kit_legacy.Base.{◌≡◌, refl, ◌∙◌, true, Option, none, some, List, [], ◌∷◌, arith}
use kit_legacy.Errors.Value.{GoError, foreign, ErrorsLib}
use kit_legacy.World.Event.{Any, an_error}
use kit_legacy.World.Action.{panicked}
use kit_legacy.Middleware.Timeout.Writer.{
  Headers, Call, edit_headers, write_header, write, put, edit, put_status, free_buffer,
}
use kit_legacy.Middleware.Timeout.Exchange.{
  Server, HandlerCtx, send, perform, enter_timeout, answer_timeout, leave_timeout, handle_panicked,
  finish_copy, handle_finished, answer_error, copy, copy_headers, free, call_response, call_all,
  context_error,
}
use kit_legacy.Middleware.Timeout.Turns.{
  Middleware, waiting, finishing, copying, answering, leaving, returning, ended, State,
  after_finished, proceed, select_finish, select_panic, select_timeout,
}

module _ {F : Type 0} where
  -- What the middleware does leaves the handler's error, the reports, and the mark of the time-out.
  unfoldable Keeps : HandlerCtx F → HandlerCtx F → Type 0
  Keeps c d =
      (d.handler_error ≡ c.handler_error)
      × (d.reported ≡ c.reported)
      × (d.writer.has_timed_out ≡ c.writer.has_timed_out)

  call_response-Keeps : (call : Call) (c : HandlerCtx F) → Keeps c (call_response call c)
  unfolding Keeps call_response send perform put_status edit
  call_response-Keeps (edit_headers change) c = ground arith
  call_response-Keeps (write_header code) c = ground arith
  call_response-Keeps (write body) c = ground arith

  call_all-Keeps : (calls : List Call) (c : HandlerCtx F) → Keeps c (call_all calls c)
  unfolding call_all Keeps
  call_all-Keeps [] c = (refl, refl, refl)
  call_all-Keeps (call ∷ calls) c =
      let (error, reported, timed_out) = call_response-Keeps call c in
      let (error', reported', timed_out') = call_all-Keeps calls (call_response call c) in
      (error' ∙ error, reported' ∙ reported, timed_out' ∙ timed_out)

  copy_headers-Keeps : (headers : Headers) (c : HandlerCtx F) → Keeps c (copy_headers headers c)
  unfolding copy_headers Keeps send
  copy_headers-Keeps [] c = (refl, refl, refl)
  copy_headers-Keeps ((k, v) ∷ headers) c =
      copy_headers-Keeps headers (send (edit_headers (put k v)) c)

  answer_error-Keeps : (server : Server F) (c : HandlerCtx F) → Keeps c (answer_error server c)
  unfolding answer_error context_error Keeps
  answer_error-Keeps server c =
      elim c.handler_error
        as (λ e. Keeps c (elim e [ none ↦ c | some err ↦ context_error server err c ])) [
          | none ↦ (refl, refl, refl)
          | some err ↦ call_all-Keeps (server.on_error c.history err) c
        ]

  freed-Keeps :
      (c d : HandlerCtx F) (reply : Option (GoError F))
      → Keeps c d
      → Keeps c
          (elim reply as (λ r. HandlerCtx F × Option (Any F)) [
            | some err ↦ (d, some (an_error err))
            | none ↦ (free d, none)
          ]).0
  unfolding Keeps free free_buffer
  freed-Keeps c d (some err) keeps = keeps
  freed-Keeps c d none keeps = keeps

  either-Keeps :
      (c d : HandlerCtx F) (next : HandlerCtx F × Option (Any F)) (reply : Option (Any F))
      → Keeps c d
      → Keeps c next.0
      → Keeps c
          (elim reply as (λ r. HandlerCtx F × Option (Any F)) [
            | some v ↦ (d, some v)
            | none ↦ next
          ]).0
  either-Keeps c d next (some v) keeps keeps' = keeps
  either-Keeps c d next none keeps keeps' = keeps'

  handle_finished-Keeps :
      (server : Server F) (c : HandlerCtx F) → Keeps c (handle_finished server c).0
  unfolding handle_finished finish_copy copy send Keeps
  handle_finished-Keeps server c =
      let named = copy_headers c.writer.headers c in
      let keeps = copy_headers-Keeps c.writer.headers c in
      either-Keeps c named (finish_copy server (copy c))
        (server.header_panic named.sent c.writer.status_code) keeps
        (freed-Keeps c (copy c) (server.write_error (copy c).sent) keeps)

  -- A turn of the middleware leaves all that the account is about, or puts the time-out's mark.
  unfoldable pub Kept : State F → State F → Type 0
  Kept x y =
      (y.goroutine ≡ x.goroutine)
      × (y.finish_chan ≡ x.finish_chan)
      × (y.panic_chan ≡ x.panic_chan)
      × (y.ctx.handler_error ≡ x.ctx.handler_error)
      × (y.ctx.reported ≡ x.ctx.reported)
      × ((x.ctx.writer.has_timed_out ≡ true) → y.ctx.writer.has_timed_out ≡ true)

  same : (x : State F) → Kept x x
  unfolding Kept
  same x = (refl, refl, refl, refl, refl, λ late. late)

  Keeps-Kept :
      (x : State F) (c : HandlerCtx F) (m : Middleware F)
      → Keeps x.ctx c
      → Kept x (record x { ctx = c; middleware = m })
  unfolding Keeps Kept
  Keeps-Kept x c m (error, reported, timed_out) =
      (refl, refl, refl, error, reported, λ late. timed_out ∙ late)

module _ {F : Type 0} ⦃lib : ErrorsLib F⦄ (server : Server F) where
  after_finished-Kept :
      (x : State F) (done : HandlerCtx F × Option (Any F))
      → Keeps x.ctx done.0
      → Kept x (after_finished server x done)
  unfolding after_finished
  after_finished-Kept x (c, none) keeps = Keeps-Kept x c returning keeps
  after_finished-Kept x (c, some v) keeps = Keeps-Kept x c (ended (panicked v)) keeps

  pub proceed-Kept : (m : Middleware F) (x : State F) → Kept x (proceed server m x)
  unfolding proceed Kept Keeps answer_timeout context_error leave_timeout
  proceed-Kept finishing x =
      Keeps-Kept x (answer_error server x.ctx) copying (answer_error-Keeps server x.ctx)
  proceed-Kept copying x =
      after_finished-Kept x (handle_finished server x.ctx) (handle_finished-Keeps server x.ctx)
  proceed-Kept answering x =
      Keeps-Kept x (answer_timeout server x.ctx) leaving
        (call_all-Keeps (server.on_error x.ctx.history (foreign server.err_handler_timeout)) x.ctx)
  proceed-Kept leaving x = (refl, refl, refl, refl, refl, λ late. late)
  proceed-Kept returning x = same x
  proceed-Kept waiting x = same x
  proceed-Kept (ended outcome) x = same x

  pub select_finish-Kept : (m : Middleware F) (x : State F) → Kept x (select_finish server m x)
  unfolding select_finish Kept
  select_finish-Kept waiting x = ground arith
  select_finish-Kept _ x = same x

  pub select_panic-Kept : (m : Middleware F) (x : State F) → Kept x (select_panic server m x)
  unfolding select_panic Kept handle_panicked free free_buffer
  select_panic-Kept waiting x = ground arith
  select_panic-Kept _ x = same x

  pub select_timeout-Kept : (m : Middleware F) (x : State F) → Kept x (select_timeout server m x)
  unfolding select_timeout Kept enter_timeout free_buffer
  select_timeout-Kept waiting x = (refl, refl, refl, refl, refl, λ late. refl)
  select_timeout-Kept _ x = same x

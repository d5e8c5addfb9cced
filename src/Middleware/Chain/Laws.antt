-- ===== src/Middleware/Chain/Laws.antt =====
-- Errors and panics of a handler end as responses.
use kit_legacy.Base.{◌≡◌, ap, ◌∙◌, sym, subst, true, false, Option, none, some, ◌∷◌, if◌then◌else◌}
use kit_legacy.Errors.Value.{GoError, ErrorsLib, is_sentinel}
use kit_legacy.World.Event.{Any, World}
use kit_legacy.World.Action.{bind-returned, Outcome, returned, panicked, pure, ◌>>◌}
use kit_legacy.World.Context.{Context}
use kit_legacy.ExceptionHandler.{left, ExceptionHandler, EchoEnv, choose}
use kit_legacy.ExceptionHandler.Laws.{responses, body_of, handle_responds}
use kit_legacy.Middleware.Chain.{
  Handler, Response, context_error, exception_handle, passed, recovered_error, recover, after_next,
  recover_handle,
}

module _ {F : Type 0} ⦃lib : ErrorsLib F⦄ (env : EchoEnv F) (exceptions : ExceptionHandler)
    (response : Response F) where
  -- What `ctx.Error` leaves: the trace, with the response to `err` unless one is committed.
  unfoldable pub Answers : GoError F → World F → World F → Type 0
  Answers err w w' =
      ((response w).committed ≡ true → w' ≡ w)
      × ((response w).committed ≡ false
          → responses w'
            ≡ (
              (choose env err).status,
              (if (response w).is_head then none else some (body_of exceptions (choose env err))),
            )
              ∷ responses w)

  pub context_error-Answers :
      (err : GoError F) (w : World F)
      → ((context_error env exceptions response err w).0 ≡ returned tt)
        × Answers err w (context_error env exceptions response err w).1
  unfolding context_error Answers
  context_error-Answers err w =
      let (back, on_committed, on_fresh) = handle_responds env exceptions err (response w) w in
      (back, (on_committed, on_fresh))

  answered :
      (err : GoError F) (result : Option (GoError F)) (w : World F)
      → let y = (context_error env exceptions response err >> pure result) w in
        (y.0 ≡ returned result) × Answers err w y.1
  answered err result w =
      let (back, answers) = context_error-Answers err w in
      let course =
        bind-returned (context_error env exceptions response err) (λ _. pure result) w tt back in
      (
        ap (λ y. y.0) course,
        subst {A = Outcome F (Option (GoError F)) × World F} (λ y. Answers err w y.1) (sym course)
            answers,
      )

  -- A handler that returns an error, under the exception middleware: the same error is returned, behind
  -- the response to it; an exception that was answered with a body outside development has lost its
  -- message by then.
  pub exception_handle-Answers :
      (next : Handler F) (ctx : Context F) (w w' : World F) (err : GoError F)
      → next ctx w ≡ (returned (some err), w')
      → let y = exception_handle env exceptions response next ctx w in
        (y.0 ≡ returned (some (left exceptions (response w') err))) × Answers err w' y.1
  unfolding exception_handle passed
  exception_handle-Answers next ctx w w' err fails =
      let course =
        bind-returned (next ctx) (passed env exceptions response) w (some err) (ap (λ y. y.0) fails)
        ∙ ap (λ y. passed env exceptions response (some err) y.1) fails in
      let (back, answers) = answered err (some (left exceptions (response w') err)) w' in
      (
        ap (λ y. y.0) course ∙ back,
        subst {A = Outcome F (Option (GoError F)) × World F} (λ y. Answers err w' y.1) (sym course)
            answers,
      )

  -- A handler that panics, under the recover middleware: with `ErrAbortHandler` the panic goes on at
  -- once; with any other value the middleware returns nil behind the response to the value as an error.
  pub recover_handle-Answers :
      (next : Handler F) (ctx : Context F) (w w' : World F) (v : Any F)
      → next ctx w ≡ (panicked v, w')
      → let y = recover_handle env exceptions response next ctx w in
        let err = recovered_error v in
        (is_sentinel env.err_abort_handler err ≡ true → y ≡ (panicked (Any.an_error err), w'))
        × (is_sentinel env.err_abort_handler err ≡ false
            → (y.0 ≡ returned none) × Answers err w' y.1)
  unfolding recover_handle after_next recover
  recover_handle-Answers next ctx w w' v panics =
      let err = recovered_error v in
      let course = ap (after_next env exceptions response) panics in
      (
        λ aborts.
            course
            ∙ ap
                (λ b.
                  (if b
                      then (λ u. (panicked (Any.an_error err), u))
                      else (context_error env exceptions response err >> pure none))
                    w')
                aborts,
        λ goes_on.
            let course' =
              course
              ∙ ap
                  (λ b.
                    (if b
                        then (λ u. (panicked (Any.an_error err), u))
                        else (context_error env exceptions response err >> pure none))
                      w')
                  goes_on in
            let (back, answers) = answered err none w' in
            (
              ap (λ y. y.0) course' ∙ back,
              subst {A = Outcome F (Option (GoError F)) × World F} (λ y. Answers err w' y.1)
                  (sym course') answers,
            ),
      )

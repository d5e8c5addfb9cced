-- ===== src/Middleware/Timeout/Reports.antt =====
-- What is reported of a handler that outlasts its time, in every order of turns.
use kit_legacy.Base.{
  subst, ◌≡◌, refl, ◌∙◌, sym, ap, ◌⊎◌, inl, inr, Bool, true, false, List, [], ◌∷◌,
}
use kit_legacy.Errors.Value.{ErrorsLib}
use kit_legacy.Middleware.Timeout.Writer.{Call}
use kit_legacy.Middleware.Timeout.Exchange.{Server, new_timeout_handler_ctx}
use kit_legacy.Middleware.Timeout.Turns.{
  Ending, Goroutine, running, locking, holding, finished, failed, gone, State, Turn, handler_turn,
  finish_turn, panic_turn, timeout_turn, middleware_turn, begin, step, run,
}
use kit_legacy.Middleware.Timeout.Kept.{
  Kept, proceed-Kept, select_finish-Kept, select_panic-Kept, select_timeout-Kept,
}
use kit_legacy.Middleware.Timeout.Accounts.{IsReported, Account, Accounted, advance-Accounted}

-- The goroutine has come to its end.
unfoldable pub is_gone : {F : Type 0} → Goroutine F → Bool
is_gone gone = true
is_gone _ = false

module _ {F : Type 0} ⦃lib : ErrorsLib F⦄ (server : Server F) where
  Account-Kept :
      (Early : Type 0) (g : Goroutine F) (x y : State F)
      → Kept x y
      → Account server Early g x
      → Account server Early g y
  unfolding Kept Account IsReported
  Account-Kept Early gone x y (g, f, p, e, r, t) (inl (early, none_yet)) = inl (early, r ∙ none_yet)
  Account-Kept Early gone x y (g, f, p, e, r, t) (inr (late, inl (done, reported))) =
      inr (t late, inl (f ∙ done, rw (e, r) reported))
  Account-Kept Early gone x y (g, f, p, e, r, t) (inr (late, inr (v, sent, reported))) =
      inr (t late, inr (v, p ∙ sent, r ∙ reported))
  Account-Kept Early finished x y (g, f, p, e, r, t) (done, none_yet) = (f ∙ done, r ∙ none_yet)
  Account-Kept Early (failed v) x y (g, f, p, e, r, t) (sent, none_yet) = (p ∙ sent, r ∙ none_yet)
  Account-Kept Early (running calls ending) x y (g, f, p, e, r, t) none_yet = r ∙ none_yet
  Account-Kept Early (locking call calls ending) x y (g, f, p, e, r, t) none_yet = r ∙ none_yet
  Account-Kept Early (holding call calls ending) x y (g, f, p, e, r, t) none_yet = r ∙ none_yet

  Accounted-Kept :
      (Early : Type 0) (x y : State F)
      → Kept x y
      → Accounted server Early x
      → Accounted server Early y
  unfolding Accounted Kept
  Accounted-Kept Early x y kept (late, h) =
      let (g, f, p, e, r, t) = kept in
      (
        elim late [ inl early ↦ inl early | inr is ↦ inr (t is) ],
        subst (λ g. Account server Early g y) (sym g) (Account-Kept Early x.goroutine x y kept h),
      )

  step-Accounted :
      (Early : Type 0) (turn : Turn) (x : State F)
      → Accounted server Early x
      → Accounted server Early (step server turn x)
  unfolding step Accounted
  step-Accounted Early handler_turn x (late, h) =
      advance-Accounted server Early x.goroutine x refl late h
  step-Accounted Early finish_turn x h =
      Accounted-Kept Early x _ (select_finish-Kept server x.middleware x) h
  step-Accounted Early panic_turn x h =
      Accounted-Kept Early x _ (select_panic-Kept server x.middleware x) h
  step-Accounted Early timeout_turn x h =
      Accounted-Kept Early x _ (select_timeout-Kept server x.middleware x) h
  step-Accounted Early middleware_turn x h =
      Accounted-Kept Early x _ (proceed-Kept server x.middleware x) h

  run-Accounted :
      (Early : Type 0) (turns : List Turn) (x : State F)
      → Accounted server Early x
      → Accounted server Early (run server turns x)
  unfolding run
  run-Accounted Early [] x h = h
  run-Accounted Early (turn ∷ turns) x h =
      run-Accounted Early turns (step server turn x) (step-Accounted Early turn x h)

  begin-Accounted :
      (calls : List Call) (ending : Ending F) → Accounted server (Unit {0}) (begin calls ending)
  unfolding Accounted Account begin new_timeout_handler_ctx
  begin-Accounted calls ending = (inl tt, refl)

  unfoldable Outlook : Type 0 → State F → Type 0
  Outlook Early x =
      ((is_gone x.goroutine ≡ false) × (x.ctx.reported ≡ []))
      ⊎ ((is_gone x.goroutine ≡ true) × ((Early × (x.ctx.reported ≡ [])) ⊎ IsReported server x))

  Account-Outlook :
      (Early : Type 0) (g : Goroutine F) (x : State F)
      → x.goroutine ≡ g
      → Account server Early g x
      → Outlook Early x
  unfolding Account Outlook is_gone
  Account-Outlook Early gone x same h = inr (ap is_gone same, h)
  Account-Outlook Early finished x same h = inl (ap is_gone same, h.1)
  Account-Outlook Early (failed v) x same h = inl (ap is_gone same, h.1)
  Account-Outlook Early (running calls ending) x same h = inl (ap is_gone same, h)
  Account-Outlook Early (locking call calls ending) x same h = inl (ap is_gone same, h)
  Account-Outlook Early (holding call calls ending) x same h = inl (ap is_gone same, h)

  -- A goroutine that is not at its end does not come to it in time any more.
  Account-late :
      (g : Goroutine F) (x : State F)
      → is_gone g ≡ false
      → Account server (Unit {0}) g x
      → Account server ⊥ g x
  unfolding Account is_gone
  Account-late gone x at_work h = cc
  Account-late finished x at_work h = h
  Account-late (failed v) x at_work h = h
  Account-late (running calls ending) x at_work h = h
  Account-late (locking call calls ending) x at_work h = h
  Account-late (holding call calls ending) x at_work h = h

  -- Whatever the turns of the handler and the middleware: nothing is reported of a handler before
  -- it has come to its end behind the time-out, and then at most once, as executing behind the
  -- time-out, around the error that it returned or the value that it panicked with.
  pub reports_once :
      (calls : List Call) (ending : Ending F) (turns : List Turn)
      → let x = run server turns (begin calls ending) in
        (x.ctx.reported ≡ []) ⊎ ((is_gone x.goroutine ≡ true) × IsReported server x)
  unfolding Accounted Outlook
  reports_once calls ending turns =
      let x = run server turns (begin calls ending) in
      let (late, h) =
        run-Accounted (Unit {0}) turns (begin calls ending) (begin-Accounted calls ending) in
      elim (Account-Outlook (Unit {0}) x.goroutine x refl h) [
        | inl (at_work, none_yet) ↦ inl none_yet
        | inr (over, inl (early, none_yet)) ↦ inl none_yet
        | inr (over, inr reported) ↦ inr (over, reported)
      ]

  -- A handler that has not come to its end when the time-out is marked, whatever it and the
  -- middleware do next: it has reported nothing as long as it is not at its end, and exactly one
  -- error, around what it returned or panicked with, once it is.
  pub late_handler_reported :
      (calls : List Call) (ending : Ending F) (turns more : List Turn)
      → (run server turns (begin calls ending)).ctx.writer.has_timed_out ≡ true
      → is_gone (run server turns (begin calls ending)).goroutine ≡ false
      → let y = run server more (run server turns (begin calls ending)) in
        ((is_gone y.goroutine ≡ false) × (y.ctx.reported ≡ []))
        ⊎ ((is_gone y.goroutine ≡ true) × IsReported server y)
  unfolding Accounted Outlook
  late_handler_reported calls ending turns more late at_work =
      let x = run server turns (begin calls ending) in
      let y = run server more x in
      let (early, h) =
        run-Accounted (Unit {0}) turns (begin calls ending) (begin-Accounted calls ending) in
      let (still, h') = run-Accounted ⊥ more x (inr late, Account-late x.goroutine x at_work h) in
      elim (Account-Outlook ⊥ y.goroutine y refl h') [
        | inl out ↦ inl out
        | inr (over, inl (never, none_yet)) ↦ elim never [ ]
        | inr (over, inr reported) ↦ inr (over, reported)
      ]

-- ===== src/Middleware/Timeout/Accounts.antt =====
-- The reports of the goroutine by where it is, and its turns.
use kit_legacy.Base.{
  subst, ◌&&◌, if◌then◌else◌, ◌≡◌, refl, sym, ◌⊎◌, inl, inr, Bool, true, false, Bool-cases, Option,
  Option-cases, some, List, [], ◌∷◌, ◌++◌, arith,
}
use kit_legacy.Errors.Value.{GoError, ErrorsLib}
use kit_legacy.World.Event.{Any}
use kit_legacy.Middleware.Timeout.Writer.{Call, edit_headers, write_header, write, edit, put_status}
use kit_legacy.Middleware.Timeout.Exchange.{
  Server, HandlerCtx, send, perform, refusal, report, executing, error_of,
  handle_panicked_after_timeout, handle_finished_after_timeout,
}
use kit_legacy.Middleware.Timeout.Turns.{
  Ending, returns, panics, Goroutine, running, locking, holding, finished, failed, gone, State,
  is_locked, needs_lock, start_call, end_handler, locked_call, direct_call, advance,
}

module _ {F : Type 0} ⦃lib : ErrorsLib F⦄ (server : Server F) where
  -- The one report of a handler that has come to its end behind the time-out: around the error that it
  -- returned, or the value that it panicked with.
  unfoldable pub IsReported : State F → Type 0
  IsReported x =
      (x.ctx.writer.has_timed_out ≡ true)
      × ((x.finish_chan ≡ true) × (x.ctx.reported ≡ executing server x.ctx.handler_error ∷ [])
          ⊎ ((v : Any F) × (x.panic_chan ≡ some v)
              × (x.ctx.reported ≡ executing server (some (error_of server v)) ∷ [])))

  -- The reports by where the goroutine is. `Early` is whether it may have come to its end in time.
  unfoldable pub Account : Type 0 → Goroutine F → State F → Type 0
  Account Early gone x = (Early × (x.ctx.reported ≡ [])) ⊎ IsReported x
  Account Early finished x = (x.finish_chan ≡ true) × (x.ctx.reported ≡ [])
  Account Early (failed v) x = (x.panic_chan ≡ some v) × (x.ctx.reported ≡ [])
  Account Early (running calls ending) x = x.ctx.reported ≡ []
  Account Early (locking call calls ending) x = x.ctx.reported ≡ []
  Account Early (holding call calls ending) x = x.ctx.reported ≡ []

  unfoldable pub Accounted : Type 0 → State F → Type 0
  Accounted Early x = (Early ⊎ (x.ctx.writer.has_timed_out ≡ true)) × Account Early x.goroutine x

  start_call-cases :
      (call : Call) (calls : List Call) (ending : Ending F) (c : HandlerCtx F)
      → let noted = record c { history = c.history ++ (call ∷ []) } in
        (start_call call calls ending c ≡ (c, holding call calls ending))
        ⊎ (start_call call calls ending c ≡ (noted, running calls ending))
        ⊎ (start_call call calls ending c ≡ (c, locking call calls ending))
  unfolding start_call
  start_call-cases call calls ending c = ground arith

  unless_locked :
      (Early : Type 0) (locked : Bool) (g : Goroutine F) (x y : State F)
      → x.goroutine ≡ g
      → Early ⊎ (x.ctx.writer.has_timed_out ≡ true)
      → Account Early g x
      → Accounted Early y
      → Accounted Early (if locked then x else y)
  unfolding Accounted
  unless_locked Early true g x y same late h next =
      (late, subst (λ g. Account Early g x) (sym same) h)
  unless_locked Early false g x y same late h next = next

  -- The report behind the end of the handler.
  report-Accounted :
      (Early : Type 0) (timed_out : Bool) (err : Option (GoError F)) (x : State F)
      → x.ctx.writer.has_timed_out ≡ timed_out
      → Early ⊎ (x.ctx.writer.has_timed_out ≡ true)
      → x.ctx.reported ≡ []
      → (x.finish_chan ≡ true) × (err ≡ x.ctx.handler_error)
        ⊎ ((v : Any F) × (x.panic_chan ≡ some v) × (err ≡ some (error_of server v)))
      → Accounted Early (record x { ctx = report server err x.ctx; goroutine = gone })
  unfolding Accounted Account IsReported report
  report-Accounted Early true err x is late none_yet (inl (done, the)) =
      rw (is, none_yet, the) (inr refl, inr (refl, inl (done, refl)))
  report-Accounted Early true err x is late none_yet (inr (v, sent, the)) =
      rw (is, none_yet, the) (inr refl, inr (refl, inr (v, sent, refl)))
  report-Accounted Early false err x is (inl early) none_yet how =
      rw is (inl early, inl (early, none_yet))
  report-Accounted Early false err x is (inr late) none_yet how = cc

  -- A turn of the goroutine.
  pub advance-Accounted :
      (Early : Type 0) (g : Goroutine F) (x : State F)
      → x.goroutine ≡ g
      → Early ⊎ (x.ctx.writer.has_timed_out ≡ true)
      → Account Early g x
      → Accounted Early (advance server g x)
  unfolding Accounted Account advance direct_call locked_call end_handler perform put_status edit
      send handle_finished_after_timeout handle_panicked_after_timeout
  advance-Accounted Early (running [] (returns err)) x same late h = (late, (refl, h))
  advance-Accounted Early (running [] (panics v)) x same late h = (late, (refl, h))
  advance-Accounted Early (running (call ∷ calls) ending) x same late h =
      elim (start_call-cases call calls ending x.ctx) [
        | inl e ↦ rw e (late, h)
        | inr (inl e) ↦ rw e (late, h)
        | inr (inr e) ↦ rw e (late, h)
      ]
  advance-Accounted Early (locking (edit_headers change) calls ending) x same late h =
      unless_locked Early (needs_lock (edit_headers change) && is_locked x.middleware) _ x _ same
        late h (late, h)
  advance-Accounted Early (locking (write_header code) calls ending) x same late h =
      unless_locked Early (needs_lock (write_header code) && is_locked x.middleware) _ x _ same late
        h (late, h)
  advance-Accounted Early (locking (write body) calls ending) x same late h =
      unless_locked Early (needs_lock (write body) && is_locked x.middleware) _ x _ same late h
        (elim (Bool-cases x.ctx.writer.body) [
          | inl e ↦ rw e (late, h)
          | inr e ↦ rw e (late, (refl, h))
        ])
  advance-Accounted Early (holding call calls ending) x same late h =
      elim (Option-cases (refusal server call x.ctx.sent)) [
        | inl e ↦ rw e (late, h)
        | inr (v, e) ↦ rw e (late, (refl, h))
      ]
  advance-Accounted Early finished x same late h =
      unless_locked Early (is_locked x.middleware) _ x _ same late h (
        report-Accounted Early x.ctx.writer.has_timed_out x.ctx.handler_error x refl late h.1
          (inl (h.0, refl)))
  advance-Accounted Early (failed v) x same late h =
      unless_locked Early (is_locked x.middleware) _ x _ same late h (
        report-Accounted Early x.ctx.writer.has_timed_out (some (error_of server v)) x refl late h.1
          (inr (v, h.0, refl)))
  advance-Accounted Early gone x same late h = (late, subst (λ g. Account Early g x) (sym same) h)

-- ===== src/Middleware/Timeout/OnTime.antt =====
-- The turns of a handler that makes its calls and returns while the middleware waits.
use kit_legacy.Base.{
  ℕ, zero, suc, subst, ◌≡◌, refl, ◌∙◌, sym, ap, ◌⊎◌, inl, inr, ◌≤◌, ◌*◌, ◌+◌, true, false, Option,
  List, [], ◌∷◌, length, replicate, arith,
}
use kit_legacy.Errors.Value.{GoError, ErrorsLib}
use kit_legacy.Middleware.Timeout.Writer.{Call}
use kit_legacy.Middleware.Timeout.Exchange.{
  Server, perform, report, handle_finished_after_timeout, call_response, call_all,
}
use kit_legacy.Middleware.Timeout.Response.{IsOpen, call_response-IsOpen}
use kit_legacy.Middleware.Timeout.Turns.{
  Ending, returns, running, finished, gone, waiting, State, handler_turn, is_locked, start_call,
  end_handler, locked_call, advance, step, run,
}

module _ {F : Type 0} ⦃lib : ErrorsLib F⦄ (server : Server F) where
  -- The handler has run to its end, with `calls` made.
  unfoldable pub Done : List Call → Option (GoError F) → State F → State F → Type 0
  Done calls err x y =
      (y.ctx ≡ record (call_all calls x.ctx) { handler_error = err })
      × (y.finish_chan ≡ true)
      × (y.middleware ≡ waiting)

  -- One call takes one turn, or two.
  made : Call → List Call → Ending F → State F → State F
  made call calls ending x = record x {
    ctx = call_response call x.ctx;
    goroutine = running calls ending;
  }

  turns_of_call :
      (call : Call) (calls : List Call) (ending : Ending F) (x : State F)
      → x.goroutine ≡ running (call ∷ calls) ending
      → IsOpen x.ctx
      → x.middleware ≡ waiting
      → (step server handler_turn x ≡ made call calls ending x)
        ⊎ (step server handler_turn (step server handler_turn x) ≡ made call calls ending x)
  unfolding made IsOpen step advance start_call locked_call is_locked perform call_response
  turns_of_call call calls ending x runs taken waits = ground arith

  ended_with : Option (GoError F) → State F → State F
  ended_with err x = record x {
    ctx = record x.ctx { handler_error = err };
    goroutine = finished;
    finish_chan = true;
  }

  turn_at_end :
      (err : Option (GoError F)) (x : State F)
      → x.goroutine ≡ running [] (returns err)
      → step server handler_turn x ≡ ended_with err x
  unfolding step advance end_handler ended_with
  turn_at_end err x runs = ground arith

  -- Turns behind the handler's end change nothing before the time is up.
  turn_behind :
      (x : State F)
      → x.goroutine ≡ finished
      → x.ctx.writer.has_timed_out ≡ false
      → x.middleware ≡ waiting
      → step server handler_turn x ≡ record x { goroutine = gone }
  unfolding step advance is_locked handle_finished_after_timeout report
  turn_behind x ends in_time waits = ground arith

  rest-same :
      (n : ℕ) (x : State F) → x.goroutine ≡ gone → run server (replicate n handler_turn) x ≡ x
  unfolding run step advance
  rest-same zero x ends = refl
  rest-same (suc n) x ends =
      let same = ap (λ g. advance server g x) ends in
      ap (run server (replicate n handler_turn)) same ∙ rest-same n x ends

  -- The end of the handler, and any turns behind it.
  run_end :
      (err : Option (GoError F)) (n : ℕ) (x : State F)
      → x.goroutine ≡ running [] (returns err)
      → IsOpen x.ctx
      → x.middleware ≡ waiting
      → Done [] err x (run server (replicate (suc n) handler_turn) x)
  unfolding Done run IsOpen call_all ended_with
  run_end err zero x runs taken waits =
      subst {A = State F} (λ y. Done [] err x y) (sym (turn_at_end err x runs)) (refl, refl, waits)
  run_end err (suc n) x runs taken waits =
      let first = turn_at_end err x runs in
      let second = turn_behind (ended_with err x) refl taken.1 waits in
      let course =
        ap (run server (replicate (suc n) handler_turn)) first
        ∙ ap (run server (replicate n handler_turn)) second
        ∙ rest-same n (record (ended_with err x) { goroutine = gone }) refl in
      subst {A = State F} (λ y. Done [] err x y) (sym course) (refl, refl, waits)

  pub run_calls :
      (calls : List Call) (err : Option (GoError F)) (n : ℕ) (x : State F)
      → 2 * length calls + 1 ≤ n
      → x.goroutine ≡ running calls (returns err)
      → IsOpen x.ctx
      → x.middleware ≡ waiting
      → Done calls err x (run server (replicate n handler_turn) x)
  unfolding Done run made call_all
  run_calls [] err zero x enough runs taken waits = absurd (omega arith)
  run_calls [] err (suc n) x enough runs taken waits = run_end err n x runs taken waits
  run_calls (call ∷ calls) err zero x enough runs taken waits = absurd (omega arith)
  run_calls (call ∷ calls) err (suc zero) x enough runs taken waits = absurd (omega arith)
  run_calls (call ∷ calls) err (suc (suc n)) x enough runs taken waits =
      let next = made call calls (returns err) x in
      let taken' = call_response-IsOpen call x.ctx taken in
      elim (turns_of_call call calls (returns err) x runs taken waits) [
        | inl once ↦
            subst {A = State F} (λ y. Done (call ∷ calls) err x y)
              (sym (ap (run server (replicate (suc n) handler_turn)) once))
              (run_calls calls err (suc n) next (omega (arith, enough)) refl taken' waits)
        | inr twice ↦
            subst {A = State F} (λ y. Done (call ∷ calls) err x y)
              (sym (ap (run server (replicate n handler_turn)) twice))
              (run_calls calls err n next (omega (arith, enough)) refl taken' waits)
      ]

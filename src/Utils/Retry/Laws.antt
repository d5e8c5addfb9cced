-- ===== src/Utils/Retry/Laws.antt =====
-- The retry helpers against a plain description: call with 1, 2, … until a call does not fail.
use kit_legacy.Base.{
  ◌-ℤ◌, ◌≤ℤ◌, ℕ, zero, suc, ℤ, pos, ◌≡◌, refl, ap, Option, none, some, List, [], ◌∷◌, length, arith,
}
use kit_legacy.Errors.Value.{GoError}
use kit_legacy.World.Event.{World}
use kit_legacy.World.Action.{Outcome, returned, panicked, exited, Fallible}
use kit_legacy.Utils.Retry.{
  Classifier, RetrierLib, counted, run_counted, retry_constant, exponential_retry,
}

one_less : (n : ℕ) → pos (suc n) -ℤ pos 1 ≡ pos n
unfolding ◌-ℤ◌
one_less n = ground arith

module _ {F : Type 0} where
  -- An error is followed by the next call; anything else is the result.
  unfoldable pub again :
      Outcome F (Option (GoError F)) × World F
      → Fallible F
      → Outcome F (Option (GoError F)) × World F
  again (returned (some err), w) next = next w
  again (returned none, w) next = (returned none, w)
  again (panicked v, w) next = (panicked v, w)
  again (exited code, w) next = (exited code, w)

  -- At most `suc more` calls, the first with the number `attempt`; the last reply is the result.
  unfoldable pub tries : ℕ → ℕ → (ℕ → Fallible F) → Fallible F
  unfolding again
  tries zero attempt fn w = fn attempt w
  tries (suc more) attempt fn w = again (fn attempt w) (tries more (suc attempt) fn)

module _ {F : Type 0} ⦃retrier : RetrierLib F⦄ where
  abbrev trace_of :
      Outcome F (Option (GoError F)) × (ℕ × World F) → Outcome F (Option (GoError F)) × World F
  trace_of (r, (_, w)) = (r, w)

  run-tries :
      (fn : ℕ → Fallible F) (backoff : List ℤ) (attempt : ℕ) (w : World F)
      → trace_of (retrier.run backoff none (counted fn) (attempt, w))
        ≡ tries (length backoff) attempt fn w
  unfolding tries again counted
  run-tries fn [] attempt w = ap trace_of (retrier.run-nil (counted fn) (attempt, w))
  run-tries fn (delay ∷ backoff) attempt w =
      split (fn attempt w) refl (λ w'. run-tries fn backoff (suc attempt) w')
    where
      split :
          (reply : Outcome F (Option (GoError F)) × World F)
          → fn attempt w ≡ reply
          → ((w' : World F)
              → trace_of (retrier.run backoff none (counted fn) (suc attempt, w'))
                ≡ tries (length backoff) (suc attempt) fn w')
          → trace_of (retrier.run (delay ∷ backoff) none (counted fn) (attempt, w))
            ≡ tries (suc (length backoff)) attempt fn w
      split (returned (some err), w') e ih =
          rw (retrier.run-failed delay backoff (counted fn) (attempt, w) (rw e tt)) (rw e (ih w'))
      split (returned none, w') e ih =
          rw (retrier.run-finished (delay ∷ backoff) (counted fn) (attempt, w) (rw e (λ f. f)))
            (rw e)
      split (panicked v, w') e ih =
          rw (retrier.run-finished (delay ∷ backoff) (counted fn) (attempt, w) (rw e (λ f. f)))
            (rw e)
      split (exited code, w') e ih =
          rw (retrier.run-finished (delay ∷ backoff) (counted fn) (attempt, w) (rw e (λ f. f)))
            (rw e)

  run_counted-tries :
      (fn : ℕ → Fallible F) (backoff : List ℤ) (w : World F)
      → run_counted backoff none fn w ≡ tries (length backoff) 1 fn w
  unfolding run_counted
  run_counted-tries fn backoff w = run-tries fn backoff 1 w

  -- With the default classifier both helpers make at most `attempts` calls, numbered from 1, stop at
  -- the first that does not return an error, and reply as the last call did.
  pub retry-tries :
      (more : ℕ) (delay initial limit : ℤ) (fn : ℕ → Fallible F) (w : World F)
      → (exponential_retry (pos (suc more)) initial limit none fn w ≡ tries more 1 fn w)
        × (retry_constant (pos (suc more)) delay none fn w ≡ tries more 1 fn w)
  unfolding exponential_retry retry_constant
  retry-tries more delay initial limit fn w = (
    rw (one_less more) (
        rw (run_counted-tries fn _ w, retrier.length-limited_exponential_backoff more initial limit)
          (ground arith)),
    rw (one_less more)
        (rw (run_counted-tries fn _ w, retrier.length-constant_backoff more delay) (ground arith)),
  )

  -- Without a positive number of attempts both return nil and never call the function.
  pub retry_without_attempts :
      (attempts delay initial limit : ℤ) (classifier : Classifier F) (fn : ℕ → Fallible F)
      (w : World F)
      → attempts ≤ℤ pos 0
      → (exponential_retry attempts initial limit classifier fn w ≡ (returned none, w))
        × (retry_constant attempts delay classifier fn w ≡ (returned none, w))
  unfolding exponential_retry retry_constant ◌-ℤ◌
  retry_without_attempts attempts delay initial limit classifier fn w h = ground arith

-- ===== src/Connect/Attempts.antt =====
-- The attempts that a constructor makes, and what it makes of the last one.
use kit_legacy.Base.{
  ℕ, zero, suc, ◌+◌, ◌≤◌, pos, ◌≡◌, refl, ◌⊎◌, inl, inr, Option, none, some, arith, ◌∙◌, ap,
}
use kit_legacy.Errors.Value.{GoError, ErrorsLib}
use kit_legacy.Errors.Error.{Error}
use kit_legacy.World.Event.{World}
use kit_legacy.World.Action.{returned, Fallible}
use kit_legacy.World.Context.{Context}
use kit_legacy.Utils.Deadline.{DeadlineLib}
use kit_legacy.Utils.Deadline.Laws.{Settles, bounded_lem}
use kit_legacy.Utils.Retry.{RetrierLib, exponential_retry}
use kit_legacy.Utils.Retry.Laws.{tries, again, retry-tries}
use kit_legacy.Connect.{RetryConfig, connect}

module _ {F : Type 0} (try : ℕ → Fallible F) where
  -- From the attempt `k` on the trace `w`, all attempts fail up to the one with the last number.
  pub data Failing : ℕ → World F → ℕ → World F → Type 0 where
    here : {k : ℕ} {w : World F} → Failing k w k w
    failed :
        {k : ℕ} {w w' : World F} {last : ℕ} {before : World F} (err : GoError F)
        → try k w ≡ (returned (some err), w')
        → Failing (suc k) w' last before
        → Failing k w last before

  -- An attempt returns: it neither panics nor ends the process.
  abbrev pub Returning : Type 0
  Returning = (k : ℕ) (w : World F) → (r : Option (GoError F)) × ((try k w).0 ≡ returned r)

  -- The attempts from `k` on, at most `more` behind it, end with the reply `r` of the last one: it is
  -- nil, or the attempts are used up.
  unfoldable pub Course : ℕ → ℕ → World F → ℕ → World F → Option (GoError F) → Type 0
  Course more k w last before r =
      Failing k w last before
      × ((try last before).0 ≡ returned r)
      × (last ≤ k + more)
      × ((r ≡ none) ⊎ (last ≡ k + more))

  tries_step :
      (more k : ℕ) (w w' : World F) (r : Option (GoError F))
      → try k w ≡ (returned r, w')
      → tries (suc more) k try w ≡ again (returned r, w') (tries more (suc k) try)
  unfolding tries
  tries_step more k w w' r e = ap (λ reply. again reply (tries more (suc k) try)) e

  -- What the description of the retry does is such a course.
  abbrev Ends : ℕ → ℕ → World F → Type 0
  Ends more k w =
      (last : ℕ) × (before : World F) × (r : Option (GoError F)) × Course more k w last before r
      × (tries more k try w ≡ (returned r, (try last before).1))

  Ends-step :
      (more k : ℕ) (w : World F) (r : Option (GoError F))
      → (try k w).0 ≡ returned r
      → Ends more (suc k) (try k w).1
      → Ends (suc more) k w
  unfolding Course tries again
  Ends-step more k w none e _ = (
    k,
    w,
    none,
    (here, e, omega arith, inl refl),
    tries_step more k w _ none (ap (λ o. (o, (try k w).1)) e),
  )
  Ends-step more k w (some err) e (last, before, r, (failing, at_last, bound, ends), course) =
      let reply : try k w ≡ (returned (some err), (try k w).1) = ap (λ o. (o, (try k w).1)) e in
      (
        last,
        before,
        r,
        (
          failed err reply failing,
          at_last,
          omega arith,
          elim ends [ inl done ↦ inl done | inr used ↦ inr (omega arith) ],
        ),
        tries_step more k w (try k w).1 (some err) reply ∙ course,
      )

  tries-Ends : Returning → (more k : ℕ) (w : World F) → Ends more k w
  unfolding tries Course
  tries-Ends returning zero k w =
      let (r, e) = returning k w in
      (k, w, r, (here, e, omega arith, inr (omega arith)), ap (λ o. (o, (try k w).1)) e)
  tries-Ends returning (suc more) k w =
      let (r, e) = returning k w in
      Ends-step more k w r e (tries-Ends returning more (suc k) (try k w).1)

module _ {F : Type 0} ⦃lib : ErrorsLib F⦄ ⦃timer : DeadlineLib F⦄ ⦃retrier : RetrierLib F⦄ where
  -- A constructor with a positive number of attempts: they are numbered from 1, all but the last one
  -- fail, the last one returns nil unless the number is used up, and the result is what the switch
  -- makes of its reply under the deadline of the context.
  pub connect_lem :
      (ctx : Context F) (retry : RetryConfig) (timed_out generic : Error F) (try : ℕ → Fallible F)
      (more : ℕ) (w : World F)
      → retry.attempts ≡ pos (suc more)
      → Returning try
      → (last : ℕ) × (before : World F) × (r result : Option (GoError F)) × Course try more 1 w last
          before r
        × Settles ctx.deadline timed_out generic r result
        × (connect ctx retry timed_out generic try w ≡ (returned result, (try last before).1))
  unfolding connect
  connect_lem ctx retry timed_out generic try more w positive returning =
      let (last, before, r, course, same) = tries-Ends try returning more 1 w in
      let retried = retry-tries more (pos 0) retry.initial_delay retry.limit_delay try w in
      let work = exponential_retry retry.attempts retry.initial_delay retry.limit_delay none try in
      let ran : work w ≡ (returned r, (try last before).1) =
        ap (λ n. exponential_retry n retry.initial_delay retry.limit_delay none try w) positive
        ∙ (retried.0 ∙ same) in
      let (result, whole, settles) =
        bounded_lem ctx timed_out generic work w r (ap (λ o. o.0) ran) in
      (last, before, r, result, course, settles, whole ∙ ap (λ o. (returned result, o.1)) ran)

-- ===== src/Migrator/Frame.antt =====
-- When `Assert`, `Apply` and `Rollback` of migrator.go return nil, by the work in their frame.
use kit_legacy.Base.{ℤ, ◌≡◌, refl, sym, ap, ◌∙◌, inl, inr, Option, none, some, ◌∷◌, arith}
use kit_legacy.Errors.Value.{GoError, ErrorsLib}
use kit_legacy.Errors.Builtin.{err_migrator_generic, err_migrator_timed_out}
use kit_legacy.World.Event.{Event, World}
use kit_legacy.World.Action.{
  Outcome, returned, panicked, exited, Fallible, pure, emit, bind-returned, ◌>>=◌, ◌>>◌,
}
use kit_legacy.World.Context.{Context}
use kit_legacy.Utils.Deadline.{DeadlineLib, own_timed_out, run_until, deadline, settle}
use kit_legacy.Migrator.Operation.{set_lock_timeout, operation}
use kit_legacy.Migrator.Versions.{changes}

module _ {F : Type 0} where
  -- What follows a reply returns nil only behind nil.
  abbrev Passes : (Option (GoError F) → Fallible F) → Type 0
  Passes k = (r : Option (GoError F)) (u : World F) → (k r u).0 ≡ returned none → r ≡ none

  reply-none :
      (k : Option (GoError F) → Fallible F) (w : World F)
      (reply : Outcome F (Option (GoError F)) × World F)
      → Passes k
      → (((λ (u : World F). reply) >>= k) w).0 ≡ returned none
      → (reply.0 ≡ returned none) × ((((λ (u : World F). reply) >>= k) w) ≡ k none reply.1)
  reply-none k w (returned r, w') passes h =
      let e = passes r w' h in (ap returned e, ap (λ x. k x w') e)
  reply-none k w (panicked v, w') passes h = cc
  reply-none k w (exited code, w') passes h = cc

  bind-none :
      (m : Fallible F) (k : Option (GoError F) → Fallible F) (w : World F)
      → Passes k
      → ((m >>= k) w).0 ≡ returned none
      → ((m w).0 ≡ returned none) × ((m >>= k) w ≡ k none (m w).1)
  bind-none m k w passes h = reply-none k w (m w) passes h

module _ {F : Type 0} ⦃lib : ErrorsLib F⦄ ⦃timer : DeadlineLib F⦄ where
  own-Passes : Passes {F = F} (λ err. pure (own_timed_out err))
  unfolding own_timed_out
  own-Passes none u h = refl
  own-Passes (some err) u h = ground arith

  run_until-none :
      (d : Option ℤ) (fn : Fallible F) (w : World F)
      → (run_until d fn w).0 ≡ returned none
      → ((fn w).0 ≡ returned none) × ((run_until d fn w).1 ≡ (fn w).1)
  unfolding run_until own_timed_out
  run_until-none none fn w h = (h, refl)
  run_until-none (some d) fn w h =
      let (back, course) =
        bind-none (timer.run (timer.time_until d w) fn) (λ err. pure (own_timed_out err)) w
          own-Passes h in
      elim (timer.run_cases (timer.time_until d w) fn w) [
        | inl same ↦ (ap (λ y. y.0) (sym same) ∙ back, ap (λ y. y.1) course ∙ ap (λ y. y.1) same)
        | inr (result, e, late) ↦ cc
      ]

  lock_timeout_quiet :
      (d : Option ℤ) (w : World F)
      → ((set_lock_timeout d w).0 ≡ returned tt) × (changes (set_lock_timeout d w).1 ≡ changes w)
  unfolding set_lock_timeout changes
  lock_timeout_quiet none w = (refl, refl)
  lock_timeout_quiet (some d) w = (refl, refl)

  closed : Fallible F → Fallible F
  closed work = do result ← work; emit Event.done_closed; pure result

  closed-none :
      (work : Fallible F) (w : World F)
      → (closed work w).0 ≡ returned none
      → ((work w).0 ≡ returned none) × (changes (closed work w).1 ≡ changes (work w).1)
  unfolding closed changes
  closed-none work w h =
      let (back, course) =
        bind-none work (λ result. emit Event.done_closed >> pure result) w (λ r u e. cc) h in
      (back, ap (λ y. changes y.1) course)

  settling : Option (GoError F) → Fallible F
  settling err =
      emit (Event.lock_timeout_set none)
      >> pure (settle err_migrator_timed_out err_migrator_generic err)

  settling-Passes : Passes settling
  unfolding settling settle
  settling-Passes none u h = refl
  settling-Passes (some err) u h = ground arith

  -- An operation that returns nil: so has its work, on a trace with the same changes.
  pub operation-none :
      (ctx : Context F) (work : Fallible F) (w : World F)
      → (operation ctx work w).0 ≡ returned none
      → (during : World F) × (changes during ≡ changes w)
        × ((work during).0 ≡ returned none)
        × (changes (operation ctx work w).1 ≡ changes (work during).1)
  unfolding operation deadline changes settling closed
  operation-none ctx work w h =
      let made : World F = Event.done_made ∷ w in
      let (back, quiet) = lock_timeout_quiet ctx.deadline made in
      let during = (set_lock_timeout ctx.deadline made).1 in
      let rest = deadline ctx (closed work) >>= settling in
      let behind =
        bind-returned (set_lock_timeout ctx.deadline) (λ (_ : Unit {0}). rest) made tt back in
      let (back', course) =
        bind-none (deadline ctx (closed work)) settling during settling-Passes
          (ap (λ y. y.0) (sym behind) ∙ h) in
      let (closes, same) = run_until-none ctx.deadline (closed work) during back' in
      let (works, kept) = closed-none work during closes in
      (during, quiet, works, ap (λ y. changes y.1) (behind ∙ course) ∙ ap changes same ∙ kept)

  -- Without a deadline an operation whose work returns nil returns nil.
  pub untimed-none :
      (ctx : Context F) (work : Fallible F) (w : World F)
      → ctx.deadline ≡ none
      → (work (Event.done_made ∷ w)).0 ≡ returned none
      → (operation ctx work w).0 ≡ returned none
  unfolding operation deadline run_until set_lock_timeout closed settling settle
  untimed-none ctx work w free h =
      let made : World F = Event.done_made ∷ w in
      let frame = λ (d : Option ℤ).
        ((emit Event.done_made >> (set_lock_timeout d >> (run_until d (closed work) >>= settling)))
          w).0 in
      let ends = bind-returned work (λ r. emit Event.done_closed >> pure r) made none h in
      ap frame free
      ∙ ap (λ y. y.0) (bind-returned (closed work) settling made none (ap (λ y. y.0) ends))

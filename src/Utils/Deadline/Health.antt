-- ===== src/Utils/Deadline/Health.antt =====
-- A `Health` method of database.go or cache.go: its work under the deadline, and the switch on the result.
use kit_legacy.Base.{
  ◌≡◌, refl, sym, ap, ◌∙◌, subst, ◌⊎◌, ◌↔◌, inl, inr, false, true, Option, none, some, is_some,
  same_text,
}
use mathlib.Core.Option.{some-injective}
use kit_legacy.Errors.Value.{GoError, ErrorsLib}
use kit_legacy.Errors.Error.{Error, to_error, wrap, is_error}
use kit_legacy.World.Event.{World}
use kit_legacy.World.Action.{Outcome, returned, panicked, exited, Fallible}
use kit_legacy.World.Context.{Context}
use kit_legacy.Utils.Deadline.{DeadlineLib, bounded}
use kit_legacy.Utils.Deadline.Laws.{Settles, bounded_lem}

abbrev pub HasReturned : {F A : Type 0} → Outcome F A → Type 0
HasReturned (returned a) = Unit
HasReturned (panicked v) = ⊥
HasReturned (exited code) = ⊥

HasReturned-returned : {F A : Type 0} (o : Outcome F A) → HasReturned o → (a : A) × (o ≡ returned a)
HasReturned-returned (returned a) h = (a, refl)
HasReturned-returned (panicked v) h = absurd h
HasReturned-returned (exited code) h = absurd h

module _ {F : Type 0} ⦃lib : ErrorsLib F⦄ ⦃timer : DeadlineLib F⦄ (ctx : Context F)
    (timed_out generic unhealthy : Error F) (work : Fallible F) (w : World F)
    (Healthy : Type 0) where
  -- What the method returns: nil only where all is healthy; the time-out of the component only under a
  -- deadline, where all is healthy; and no error that is identified as the unhealthy one.
  abbrev pub Reports : Option (GoError F) → Type 0
  Reports result =
      (result ≡ none → Healthy)
      × (Healthy
          → (result ≡ none)
            ⊎ ((is_some ctx.deadline ≡ true) × (result ≡ some (to_error timed_out))))
      × ((err : GoError F) → result ≡ some err → is_error unhealthy err ≡ false)

  module _ (other_time_out : same_text unhealthy.identifier timed_out.identifier ≡ false)
      (other_generic : same_text unhealthy.identifier generic.identifier ≡ false)
      (none_iff : ((work w).0 ≡ returned none) ↔ Healthy) where
    Settles-Reports :
        (r result : Option (GoError F))
        → (work w).0 ≡ returned r
        → Settles ctx.deadline timed_out generic r result
        → Reports result
    unfolding is_error wrap
    Settles-Reports r result h (inl (fine, e)) =
        (λ _. none_iff.0 (h ∙ ap returned fine), λ _. inl e, λ err same. cc)
    Settles-Reports r result h (inr (inl (why, e))) = (
      λ nothing. cc,
      λ healthy.
          let fine = none_iff.1 healthy in
          elim why [ inl late ↦ inr (late, e) | inr (err, bad, _) ↦ cc ],
      λ err same.
          subst (λ x. is_error unhealthy x ≡ false) (some-injective _ _ (sym e ∙ same))
            other_time_out,
    )
    Settles-Reports r result h (inr (inr (err, bad, other, e))) = (
      λ nothing. cc,
      λ healthy. let fine = none_iff.1 healthy in cc,
      λ err' same.
          subst (λ x. is_error unhealthy x ≡ false) (some-injective _ _ (sym e ∙ same))
            other_generic,
    )

    pub bounded-Reports :
        HasReturned (work w).0
        → (result : Option (GoError F)) × (bounded ctx timed_out generic work w
            ≡ (returned result, (work w).1))
          × Reports result
    bounded-Reports ends =
        let (r, h) = HasReturned-returned (work w).0 ends in
        let (result, course, settles) = bounded_lem ctx timed_out generic work w r h in
        (result, course, Settles-Reports r result h settles)

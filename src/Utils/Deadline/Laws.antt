-- ===== src/Utils/Deadline/Laws.antt =====
-- What a bounded call returns, by how its work ended.
use kit_legacy.Base.{
  ℤ, sym, ◌≡◌, refl, ◌⊎◌, inl, inr, true, false, Option, none, some, arith, is_some, Bool-cases,
}
use kit_legacy.Errors.Value.{GoError, foreign, ErrorsLib}
use kit_legacy.Errors.Error.{Error, to_error, wrap, is_error}
use kit_legacy.Errors.Laws.{is_error_self}
use kit_legacy.Errors.Builtin.{err_deadline_exceeded}
use kit_legacy.World.Event.{World}
use kit_legacy.World.Action.{returned, Fallible}
use kit_legacy.World.Context.{Context}
use kit_legacy.Utils.Deadline.{DeadlineLib, own_timed_out, run_until, deadline, settle, bounded}

module _ {F : Type 0} ⦃lib : ErrorsLib F⦄ ⦃timer : DeadlineLib F⦄ where
  own_timed_out_cases :
      (r : Option (GoError F))
      → (own_timed_out r ≡ r) ⊎ (own_timed_out r ≡ some (to_error err_deadline_exceeded))
  unfolding own_timed_out
  own_timed_out_cases none = inl refl
  own_timed_out_cases (some err) = ground arith

  own_timed_out-sentinel :
      own_timed_out (some (foreign timer.err_timed_out)) ≡ some (to_error err_deadline_exceeded)
  unfolding own_timed_out
  own_timed_out-sentinel = ground (arith, lib.same_iff timer.err_timed_out timer.err_timed_out)

  -- The reply of work that ended by `r`, with the time that was left.
  abbrev pub Replies : Option ℤ → Option (GoError F) → Option (GoError F) → Type 0
  Replies d r reply =
      (reply ≡ r) ⊎ ((is_some d ≡ true) × (reply ≡ some (to_error err_deadline_exceeded)))

  run_until_cases :
      (d : Option ℤ) (fn : Fallible F) (w : World F) {r : Option (GoError F)}
      → (fn w).0 ≡ returned r
      → (reply : Option (GoError F)) × Replies d r reply
        × (run_until d fn w ≡ (returned reply, (fn w).1))
  unfolding run_until
  run_until_cases none fn w {r} h = (r, inl refl, ground arith)
  run_until_cases (some d) fn w {r} h = elim (timer.run_cases (timer.time_until d w) fn w) [
    | inl same ↦ (own_timed_out r, ground (arith, own_timed_out_cases r), ground arith)
    | inr (_, _, late) ↦ (
      own_timed_out (some (foreign timer.err_timed_out)),
      inr (refl, own_timed_out-sentinel),
      ground arith,
    )
  ]

  -- What the switch makes of the reply `r` of the work, under a context with the deadline `d`.
  abbrev pub Settles :
      Option ℤ → Error F → Error F → Option (GoError F) → Option (GoError F) → Type 0
  Settles d timed_out generic r result =
      ((r ≡ none) × (result ≡ none))
      ⊎ (((is_some d ≡ true)
            ⊎ ((err : GoError F) × (r ≡ some err) × (is_error err_deadline_exceeded err ≡ true)))
          × (result ≡ some (to_error timed_out)))
      ⊎ ((err : GoError F) × (r ≡ some err)
          × (is_error err_deadline_exceeded err ≡ false)
          × (result ≡ some (to_error (wrap generic (some err)))))

  settle-Settles :
      (d : Option ℤ) (timed_out generic : Error F) (r reply : Option (GoError F))
      → Replies d r reply
      → Settles d timed_out generic r (settle timed_out generic reply)
  unfolding settle
  settle-Settles d timed_out generic r none (inl e) = inl (sym e, refl)
  settle-Settles d timed_out generic r none (inr (_, e)) = cc
  settle-Settles d timed_out generic r (some err) (inr (late, e)) =
      inr (inl (inl late, ground (arith, is_error_self {F = F} err_deadline_exceeded)))
  settle-Settles d timed_out generic r (some err) (inl e) =
      elim (Bool-cases (is_error err_deadline_exceeded err)) [
        | inl same ↦ inr (inl (inr (err, sym e, same), rw same))
        | inr other ↦ inr (inr (err, sym e, other, rw other))
      ]

  -- A method of the form `err := Utils.Deadline(ctx, fn); switch …` whose work returns `r` has the
  -- effects of its work, and returns nil only if the work returned nil; the component's time-out error
  -- only if the context has a deadline or the work's error is itself identified as
  -- `ErrDeadlineExceeded`; and else the component's generic error around the work's.
  pub bounded_lem :
      (ctx : Context F) (timed_out generic : Error F) (fn : Fallible F) (w : World F)
      (r : Option (GoError F))
      → (fn w).0 ≡ returned r
      → (result : Option (GoError F)) × (bounded ctx timed_out generic fn w
          ≡ (returned result, (fn w).1))
        × Settles ctx.deadline timed_out generic r result
  unfolding bounded deadline
  bounded_lem ctx timed_out generic fn w r h =
      let (reply, replies, same) = run_until_cases ctx.deadline fn w h in
      (
        settle timed_out generic reply,
        ground arith,
        settle-Settles ctx.deadline timed_out generic r reply replies,
      )

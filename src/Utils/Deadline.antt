-- ===== src/Utils/Deadline.antt =====
-- `Utils.Deadline` of kit.go, and the switch on its result that the methods of every component end
-- with, written out in the source each time.
pub mod Laws
pub mod Health
use kit_legacy.Base.{
  ℤ, ◌≡◌, refl, ◌⊎◌, inl, inr, Bool, true, Option, none, some, arith, if◌then◌else◌, is_some,
  Option-cases, Bool-cases,
}
use kit_legacy.Errors.Value.{GoError, foreign, ErrorsLib, is_sentinel}
use kit_legacy.Errors.Error.{Error, to_error, wrap, is_error}
use kit_legacy.Errors.Builtin.{err_deadline_exceeded}
use kit_legacy.World.Event.{World}
use kit_legacy.World.Action.{Outcome, returned, Fallible, pure, ◌>>=◌}
use kit_legacy.World.Context.{Context}

-- github.com/eapache/go-resiliency/deadline, and `time.Until`. `Run` replies with what the work
-- returns, or with `ErrTimedOut` when the time is up first. It does not stop the work: what the
-- work does is counted whole in the trace.
pub record DeadlineLib (F : Type 0) : Type 0 where
  pub time_until : ℤ → World F → ℤ
  pub err_timed_out : F
  pub run : ℤ → Fallible F → Fallible F
  pub run_cases :
      (timeout : ℤ) (work : Fallible F) (w : World F)
      → (run timeout work w ≡ work w)
        ⊎ ((result : Option (GoError F)) × ((work w).0 ≡ returned result)
            × (run timeout work w ≡ (returned (some (foreign err_timed_out)), (work w).1)))

-- `switch { case err == nil: …; case ErrDeadlineExceeded().Is(err): …; default: … }`
module _ {F : Type 0} ⦃lib : ErrorsLib F⦄ where
  unfoldable pub settle : Error F → Error F → Option (GoError F) → Option (GoError F)
  settle timed_out generic none = none
  settle timed_out generic (some err) =
      if is_error err_deadline_exceeded err
      then some (to_error timed_out)
      else some (to_error (wrap generic (some err)))

module _ {F : Type 0} ⦃lib : ErrorsLib F⦄ ⦃timer : DeadlineLib F⦄ where
  -- `if err == deadline.ErrTimedOut { err = ErrDeadlineExceeded() }`
  unfoldable pub own_timed_out : Option (GoError F) → Option (GoError F)
  own_timed_out none = none
  own_timed_out (some err) =
      if is_sentinel timer.err_timed_out err
      then some (to_error err_deadline_exceeded)
      else some err

  -- the two branches on `ctx.Deadline()`
  unfoldable pub run_until : Option ℤ → Fallible F → Fallible F
  run_until none fn w = fn w
  run_until (some d) fn w =
      (timer.run (timer.time_until d w) fn >>= λ err. pure (own_timed_out err)) w

  unfoldable pub deadline : Context F → Fallible F → Fallible F
  unfolding run_until
  deadline ctx fn = run_until ctx.deadline fn

  -- `err := Utils.Deadline(ctx, fn); switch { … }`
  unfoldable pub bounded : Context F → Error F → Error F → Fallible F → Fallible F
  bounded ctx timed_out generic fn = deadline ctx fn >>= λ err. pure (settle timed_out generic err)

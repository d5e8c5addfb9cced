-- ===== src/Connect.antt =====
-- The constructors of the components that connect to a service: `NewDatabase`, `NewCache`,
-- `NewMigrator` and `NewObserver`. They share the shape that is written out in each of them: attempts
-- in a retry, the retry under the deadline of the context, and the switch on the result.
pub mod Attempts
use kit_legacy.Base.{ℕ, ℤ, pos, ◌⊎◌, inl, inr, Option, none, some, or_default}
use kit_legacy.Errors.Value.{GoError, ErrorsLib}
use kit_legacy.Errors.Error.{Error}
use kit_legacy.World.Event.{World}
use kit_legacy.World.Action.{Action, Fallible, pure, ◌>>=◌, ◌>>◌}
use kit_legacy.World.Context.{Context}
use kit_legacy.Utils.Deadline.{DeadlineLib, bounded}
use kit_legacy.Utils.Retry.{RetrierLib, exponential_retry}

-- `DatabaseRetryConfig` and its like; durations are in nanoseconds.
pub record RetryConfig : Type 0 where
  pub attempts : ℤ
  pub initial_delay : ℤ
  pub limit_delay : ℤ

-- The defaults are the same in the four files.
abbrev pub default_retry : RetryConfig
default_retry = record { attempts = pos 1; initial_delay = pos 0; limit_delay = pos 0 }

-- `if retry == nil { retry = … }`
unfoldable pub retry_or_default : Option RetryConfig → RetryConfig
retry_or_default retry = or_default retry default_retry

-- What a constructor returns: an error, or the component.
abbrev pub Built : Type 0 → Type 0 → Type 0
Built F A = GoError F ⊎ A

module _ {F : Type 0} where
  -- An attempt: the message with its number, and the call.
  unfoldable pub announced : (ℕ → Action F (Unit {0})) → Fallible F → ℕ → Fallible F
  announced announce attempt number = announce number >> attempt

  -- `case err == nil:`, and what follows the switch.
  unfoldable pub built : {A : Type 0} → Option (GoError F) → Action F A → Action F (Built F A)
  built (some err) rest = pure (inl err)
  built none rest = do value ← rest; pure (inr value)

module _ {F : Type 0} ⦃lib : ErrorsLib F⦄ ⦃timer : DeadlineLib F⦄ ⦃retrier : RetrierLib F⦄ where
  unfoldable pub connect :
      Context F → RetryConfig → Error F → Error F → (ℕ → Fallible F) → Fallible F
  connect ctx retry timed_out generic try =
      bounded ctx timed_out generic
        (exponential_retry retry.attempts retry.initial_delay retry.limit_delay none try)

-- ===== src/Tests/Utils.antt =====
-- The helpers of kit.go under a context with a deadline, and on a function that fails twice.
use kit_legacy.Base.{
  ℕ, ◌+◌, ◌%◌, ◌-ℤ◌, pos, negsuc, String, ltb, ◌≡◌, refl, false, Option, none, some, [], ◌∷◌,
  if◌then◌else◌, arith,
}
use native.Mathlib.Nat.{mod-lt}
use kit_legacy.Errors.Value.{GoError, foreign}
use kit_legacy.Errors.Builtin.{err_cache_generic, err_cache_timed_out}
use kit_legacy.World.Event.{Event}
use kit_legacy.World.Action.{returned, Fallible}
use kit_legacy.World.Context.{Context}
use kit_legacy.Utils.Deadline.{bounded}
use kit_legacy.Utils.Deadline.Laws.{Settles, bounded_lem}
use kit_legacy.Utils.Retry.{exponential_retry, retry_constant, run_counted}
use kit_legacy.Utils.Retry.Laws.{tries, retry-tries, retry_without_attempts}
use kit_legacy.Tests.Libs.{plain_errors, patient_timer, plain_retrier}
use kit_legacy.Utils.RandomString.{Draws, DrawsTo, Letters, random_string, random_string-Letters}

abbrev pub background : Context String
background = record {
  deadline = none;
  err = λ w. none;
  transaction = false;
  locale = none;
  trace_id = none;
}

abbrev pub hurried : Context String
hurried = record background { deadline = some (pos 5) }

abbrev fails : Fallible String
fails w = (returned (some (foreign "refused")), Event.pool_closed ∷ w)

bounded_course :
    (result : Option (GoError String)) × (bounded hurried err_cache_timed_out err_cache_generic
        fails []
      ≡ (returned result, Event.pool_closed ∷ []))
    × Settles (some (pos 5)) err_cache_timed_out err_cache_generic (some (foreign "refused")) result
bounded_course =
    bounded_lem hurried err_cache_timed_out err_cache_generic fails [] (some (foreign "refused"))
      refl

-- fails on the calls 1 and 2
abbrev third_time : ℕ → Fallible String
third_time attempt w = (
  returned (if ltb attempt 3 then some (foreign "refused") else none),
  Event.attempted (pos attempt) ∷ w,
)

third_time_test : exponential_retry (pos 5) (pos 0) (pos 0) none third_time [] ≡ (
  returned none,
  Event.attempted (pos 3) ∷ Event.attempted (pos 2) ∷ Event.attempted (pos 1) ∷ [],
)
unfolding exponential_retry run_counted ◌-ℤ◌
third_time_test = refl

retry-tries_example :
    (exponential_retry (pos 2) (pos 0) (pos 0) none third_time [] ≡ tries 1 1 third_time [])
    × (retry_constant (pos 2) (pos 7) none third_time [] ≡ tries 1 1 third_time [])
retry-tries_example = retry-tries 1 (pos 7) (pos 0) (pos 0) third_time []

retry_without_attempts_test :
    (exponential_retry (negsuc 0) (pos 0) (pos 0) none third_time [] ≡ (returned none, []))
    × (retry_constant (negsuc 0) (pos 0) none third_time [] ≡ (returned none, []))
retry_without_attempts_test =
    retry_without_attempts (negsuc 0) (pos 0) (pos 0) (pos 0) none third_time [] (omega arith)

-- the letters a, b, c and so on
abbrev in_order : Draws
in_order i = some ((36 + i) % 62)

in_order_small : (last : ℕ) → DrawsTo in_order last
unfolding DrawsTo
in_order_small last i h = ((36 + i) % 62, refl, mod-lt (36 + i) (omega arith))

random_string-Letters_example : Letters in_order 0 4 (random_string in_order (pos 4))
random_string-Letters_example = random_string-Letters in_order 4 (in_order_small 4)

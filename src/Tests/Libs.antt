-- ===== src/Tests/Libs.antt =====
-- The packages that kit calls, as small concrete functions that meet the interfaces' laws: an error of
-- another package is its text, a deadline never passes, the retrier is a plain loop.
use kit_legacy.Base.{
  if◌then◌else◌, ℕ, zero, suc, ℤ, String, ◌&◌, same_text, ◌≡◌, refl, Option, none, some, List, [],
  ◌∷◌, replicate, length, eq_iff, inl, ap,
}
use kit_legacy.Errors.Value.{GoError, ErrorsLib, text_with}
use kit_legacy.World.Event.{writes, a_string, ZLevel}
use kit_legacy.World.Action.{Outcome, returned, panicked, exited}
use kit_legacy.Utils.Deadline.{DeadlineLib}
use kit_legacy.Utils.Retry.{RetrierLib, Failed}
use kit_legacy.Observe.Logger.{written_at, ZerologLib}

abbrev pub plain_text : GoError String → String
plain_text err = text_with (λ s. s) err

abbrev pub plain_combine :
    Option (GoError String) → Option (GoError String) → Option (GoError String)
plain_combine none second = second
plain_combine (some first) second = some first

pub plain_combine-some :
    (first : GoError String) (second : Option (GoError String))
    → (both : GoError String) × (plain_combine (some first) second ≡ some both)
      × (plain_text both ≡ plain_text first)
plain_combine-some first second = (first, refl, refl)

instance abbrev pub plain_errors : ErrorsLib String
plain_errors = record {
  text = λ s. s;
  same = same_text;
  same_iff = eq_iff;
  new_with_depth = λ depth message. message;
  wrap_with_depth = λ depth err message. message & ": " & plain_text err;
  combine = plain_combine;
  text-new_with_depth = λ depth message. refl;
  text-wrap_with_depth = λ depth err message h. refl;
  combine-none = λ second. refl;
  combine-some = plain_combine-some;
}

instance abbrev pub patient_timer : DeadlineLib String
patient_timer = record {
  time_until = λ d w. d;
  err_timed_out = "timed out";
  run = λ timeout work. work;
  run_cases = λ timeout work w. inl refl;
}

abbrev pub plain_next :
    {S : Type 0}
    → Outcome String (Option (GoError String)) × S
    → (S → Outcome String (Option (GoError String)) × S)
    → Outcome String (Option (GoError String)) × S
plain_next (returned (some err), s) next = next s
plain_next (returned none, s) next = (returned none, s)
plain_next (panicked v, s) next = (panicked v, s)
plain_next (exited code, s) next = (exited code, s)

abbrev pub plain_loop :
    {S : Type 0}
    → List ℤ
    → (S → Outcome String (Option (GoError String)) × S)
    → S
    → Outcome String (Option (GoError String)) × S
plain_loop [] work s = work s
plain_loop (delay ∷ backoff) work s = plain_next (work s) (plain_loop backoff work)

plain_next-finished :
    {S : Type 0} (reply : Outcome String (Option (GoError String)) × S)
    (next : S → Outcome String (Option (GoError String)) × S)
    → ¬ Failed reply.0
    → plain_next reply next ≡ reply
plain_next-finished (returned (some err), s) next h = absurd (h tt)
plain_next-finished (returned none, s) next h = refl
plain_next-finished (panicked v, s) next h = refl
plain_next-finished (exited code, s) next h = refl

pub plain_next-Failed :
    {S : Type 0} (reply : Outcome String (Option (GoError String)) × S)
    (next : S → Outcome String (Option (GoError String)) × S)
    → Failed reply.0
    → plain_next reply next ≡ next reply.1
plain_next-Failed (returned (some err), s) next h = refl
plain_next-Failed (returned none, s) next h = absurd h
plain_next-Failed (panicked v, s) next h = absurd h
plain_next-Failed (exited code, s) next h = absurd h

pub plain_loop-finished :
    {S : Type 0} (backoff : List ℤ) (work : S → Outcome String (Option (GoError String)) × S)
    (s : S)
    → ¬ Failed (work s).0
    → plain_loop backoff work s ≡ work s
plain_loop-finished [] work s h = refl
plain_loop-finished (delay ∷ backoff) work s h =
    plain_next-finished (work s) (plain_loop backoff work) h

pub length-replicate : (n : ℕ) (d : ℤ) → length (replicate n d) ≡ n
length-replicate zero d = refl
length-replicate (suc n) d = ap suc (length-replicate n d)

instance abbrev pub plain_retrier : RetrierLib String
plain_retrier = record {
  constant_backoff = replicate;
  limited_exponential_backoff = λ n initial limit. replicate n initial;
  run = λ backoff classifier work s. plain_loop backoff work s;
  length-constant_backoff = length-replicate;
  length-limited_exponential_backoff = λ n initial limit. length-replicate n initial;
  run-nil = λ work s. refl;
  run-finished = λ backoff work s h. plain_loop-finished backoff work s h;
  run-failed = λ delay backoff work s h. plain_next-Failed (work s) (plain_loop backoff work) h;
}

instance abbrev pub plain_zerolog : ZerologLib String
plain_zerolog = record {
  fatal_msg = λ threshold message w. (exited 1, written_at threshold ZLevel.fatal message w);
  panic_msg = λ threshold message w. (
    panicked (a_string (if writes threshold ZLevel.panic then message else "")),
    written_at threshold ZLevel.panic message w,
  );
  fatal_exits = λ threshold message w. refl;
  panic_panics = λ threshold message w. refl;
}

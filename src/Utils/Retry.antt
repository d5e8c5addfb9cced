-- ===== src/Utils/Retry.antt =====
-- `Utils.Retry` and `Utils.ExponentialRetry` of kit.go, over github.com/eapache/go-resiliency/retrier.
pub mod Laws
use kit_legacy.Base.{
  ℕ, suc, ℤ, pos, pos_part, ◌-ℤ◌, ltb_ℤ, ◌≡◌, Bool, Option, none, some, List, [], ◌∷◌, length,
  if◌then◌else◌,
}
use kit_legacy.Errors.Value.{GoError}
use kit_legacy.World.Event.{World}
use kit_legacy.World.Action.{Outcome, returned, panicked, exited, Fallible}

pub data ClassifierAction : Type 0 where
  succeed fail retry : ClassifierAction

-- A nil `Classifier` stands for the default one, which retries on every error.
abbrev pub Classifier : Type 0 → Type 0
Classifier F = Option (Option (GoError F) → ClassifierAction)

-- The work leaves the retrier with an error.
abbrev pub Failed : {F : Type 0} → Outcome F (Option (GoError F)) → Type 0
Failed (returned (some err)) = Unit
Failed _ = ⊥

-- The retrier: `Run` calls the work, and calls it again after each backoff of the list for as long
-- as it returns an error. How long it sleeps is not modelled. Under an explicit classifier nothing is
-- assumed. The work has a state of its own, the variables that its closure captures.
pub record RetrierLib (F : Type 0) : Type 1 where
  pub constant_backoff : ℕ → ℤ → List ℤ
  pub limited_exponential_backoff : ℕ → ℤ → ℤ → List ℤ
  pub run :
      {S : Type 0}
      → List ℤ
      → Classifier F
      → (S → Outcome F (Option (GoError F)) × S)
      → S
      → Outcome F (Option (GoError F)) × S
  pub length-constant_backoff : (n : ℕ) (delay : ℤ) → length (constant_backoff n delay) ≡ n
  pub length-limited_exponential_backoff :
      (n : ℕ) (initial limit : ℤ) → length (limited_exponential_backoff n initial limit) ≡ n
  pub run-nil :
      {S : Type 0} (work : S → Outcome F (Option (GoError F)) × S) (s : S)
      → run [] none work s ≡ work s
  pub run-finished :
      {S : Type 0} (backoff : List ℤ) (work : S → Outcome F (Option (GoError F)) × S) (s : S)
      → ¬ Failed (work s).0
      → run backoff none work s ≡ work s
  pub run-failed :
      {S : Type 0} (delay : ℤ) (backoff : List ℤ) (work : S → Outcome F (Option (GoError F)) × S)
      (s : S)
      → Failed (work s).0
      → run (delay ∷ backoff) none work s ≡ run backoff none work (work s).1

module _ {F : Type 0} ⦃retrier : RetrierLib F⦄ where
  -- The closure that both methods pass to `Run`: the state is `attempt` beside the trace.
  counted : (ℕ → Fallible F) → ℕ × World F → Outcome F (Option (GoError F)) × (ℕ × World F)
  counted fn (attempt, w) = let (r, w') = fn attempt w in (r, (suc attempt, w'))

  unfoldable pub run_counted : List ℤ → Classifier F → (ℕ → Fallible F) → Fallible F
  unfolding counted
  run_counted backoff classifier fn w =
      let (r, (_, w')) = retrier.run backoff classifier (counted fn) (1, w) in (r, w')

  unfoldable pub retry_constant : ℤ → ℤ → Classifier F → (ℕ → Fallible F) → Fallible F
  retry_constant attempts delay classifier fn w =
      let attempts' = attempts -ℤ pos 1 in
      if ltb_ℤ attempts' (pos 0)
      then (returned none, w)
      else run_counted (retrier.constant_backoff (pos_part attempts') delay) classifier fn w

  unfoldable pub exponential_retry : ℤ → ℤ → ℤ → Classifier F → (ℕ → Fallible F) → Fallible F
  exponential_retry attempts initial_delay limit_delay classifier fn w =
      let attempts' = attempts -ℤ pos 1 in
      if ltb_ℤ attempts' (pos 0)
      then (returned none, w)
      else run_counted
          (retrier.limited_exponential_backoff (pos_part attempts') initial_delay limit_delay)
          classifier fn w

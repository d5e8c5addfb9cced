-- ===== src/World/Action.antt =====
-- Actions: a call adds to the trace, and returns, panics, or ends the process by `os.Exit`.
use kit_legacy.Base.{◌≡◌, ap, Bool, true, false, ℕ, Bool, ◌∷◌, Option, none, some}
use kit_legacy.Errors.Value.{GoError}
use kit_legacy.World.Event.{Any, Event, World}

pub data Outcome (F : Type 0) (A : Type 0) : Type 0 where
  returned : A → Outcome F A
  panicked : Any F → Outcome F A
  exited : ℕ → Outcome F A

abbrev pub Action : Type 0 → Type 0 → Type 0
Action F A = World F → Outcome F A × World F

-- What a Go function of type `error` gives: nil, or an error.
abbrev pub Fallible : Type 0 → Type 0
Fallible F = Action F (Option (GoError F))

module _ {F : Type 0} where
  abbrev pub pure : {A : Type 0} → A → Action F A
  pure a w = (returned a, w)

  abbrev pub panic_with : {A : Type 0} → Any F → Action F A
  panic_with v w = (panicked v, w)

  abbrev pub exit : {A : Type 0} → ℕ → Action F A
  exit code w = (exited code, w)

  abbrev pub emit : Event F → Action F (Unit {0})
  emit event w = (returned tt, event ∷ w)

  -- A call whose reply the environment chooses, knowing all calls before it; the reply is recorded.
  abbrev pub ask : {A : Type 0} → (World F → A) → (A → Event F) → Action F A
  ask reply event w = (returned (reply w), event (reply w) ∷ w)

  -- A reply that leaves no trace, such as `ctx.Err()`.
  abbrev pub look : {A : Type 0} → (World F → A) → Action F A
  look reply w = (returned (reply w), w)

  infixl 5 ◌>>=◌ ◌>>◌
  abbrev pub ◌>>=◌ : {A B : Type 0} → Action F A → (A → Action F B) → Action F B
  ◌>>=◌ m f w =
      let (r, w') = m w in
      elim r [
        | returned a ↦ f a w'
        | panicked v ↦ (panicked v, w')
        | exited code ↦ (exited code, w')
      ]

  abbrev pub ◌>>◌ : {A B : Type 0} → Action F A → Action F B → Action F B
  m >> k = m >>= λ _. k

  -- `if err != nil { return f(err) }`, then the rest.
  abbrev pub unless_err :
      Option (GoError F) → (GoError F → Option (GoError F)) → Fallible F → Fallible F
  unless_err none f rest = rest
  unless_err (some err) f rest = pure (f err)

  -- `if b { … }`.
  abbrev pub when : Bool → Action F (Unit {0}) → Action F (Unit {0})
  when true a w = a w
  when false a w = (returned tt, w)

-- An action behind one that returns.
pub bind-returned :
    {F A B : Type 0} (m : Action F A) (k : A → Action F B) (w : World F) (a : A)
    → (m w).0 ≡ returned a
    → (m >>= k) w ≡ k a (m w).1
bind-returned {F} {A} {B} m k w a e =
    ap {A = Outcome F A} {B = Outcome F B × World F}
      (λ r. elim r [
        | returned x ↦ k x (m w).1
        | panicked v ↦ (panicked v, (m w).1)
        | exited code ↦ (exited code, (m w).1)
      ])
      e

-- An action behind one that panics is not reached.
pub bind-panicked :
    {F A B : Type 0} (m : Action F A) (k : A → Action F B) (w : World F) (v : Any F)
    → (m w).0 ≡ panicked v
    → (m >>= k) w ≡ (panicked v, (m w).1)
bind-panicked {F} {A} {B} m k w v e =
    ap {A = Outcome F A} {B = Outcome F B × World F}
      (λ r. elim r [
        | returned x ↦ k x (m w).1
        | panicked v ↦ (panicked v, (m w).1)
        | exited code ↦ (exited code, (m w).1)
      ])
      e

-- ===== src/Migrator/Channel/Sequential.antt =====
-- Operations one after another: `Close` waits for the last one.
use kit_legacy.Base.{
  ℕ, ◌≡◌, refl, ◌⊎◌, inl, inr, true, false, Bool-cases, List, [], ◌∷◌, arith, if◌then◌else◌,
}
use kit_legacy.Migrator.Channel.{
  Phase, idle, working, selected, finished, Closer, not_called, waiting, passed, State, new_state,
  Turn, start, select, close, await, receive, start_call, select_done, close_done, await_done,
  receive_done, perform, step, run, is_active,
}

-- No operation is at work.
abbrev pub Over : State → Type 0
Over s = (i : ℕ) → is_active (s.workers i) ≡ false

-- A call starts only when no other is at work and Close has not been called.
abbrev pub Allowed : Turn → State → Type 0
Allowed (start i) s = Over s × (s.closer ≡ not_called)
Allowed (select i) s = Unit
Allowed (close i) s = Unit
Allowed await s = Unit
Allowed receive s = Unit

unfoldable pub OneByOne : List Turn → State → Type 0
OneByOne [] s = Unit
OneByOne (turn ∷ turns) s = Allowed turn s × OneByOne turns (step turn s)

-- One call at work, with the channel open, and Close not beyond it.
Busy : State → ℕ → Type 0
Busy s i =
    (is_active (s.workers i) ≡ true)
    × ((j : ℕ) → is_active (s.workers j) ≡ true → j ≡ i)
    × (s.closed s.done ≡ false)
    × ((s.closer ≡ not_called) ⊎ (s.closer ≡ waiting s.done))

InTurn : State → Type 0
InTurn s = (s.panicked ≡ false) × ((Over s × (s.closed s.done ≡ true)) ⊎ ((i : ℕ) × Busy s i))

start-InTurn :
    (i : ℕ) (p : Phase) (s : State)
    → s.workers i ≡ p
    → Over s
    → s.closer ≡ not_called
    → InTurn s
    → InTurn (start_call i p s)
unfolding InTurn Busy start_call
start-InTurn i idle s at_i over uncalled (calm, h) = (
  calm,
  inr (
    i,
    (ground arith, (λ j active. let other = over j in ground arith), ground arith, inl uncalled),
  ),
)
start-InTurn i working s at_i over uncalled h = h
start-InTurn i selected s at_i over uncalled h = h
start-InTurn i finished s at_i over uncalled h = h

select-InTurn :
    (i : ℕ) (p : Phase) (s : State) → s.workers i ≡ p → InTurn s → InTurn (select_done i p s)
unfolding InTurn Busy select_done
select-InTurn i idle s at_i h = h
select-InTurn i selected s at_i h = h
select-InTurn i finished s at_i h = h
select-InTurn i working s at_i (calm, inl (over, shut)) = let none_here = over i in cc
select-InTurn i working s at_i (calm, inr (k, (active, sole, still_open, closer))) =
    let same = sole i (ground arith) in
    (calm, inr (k, (ground arith, (λ j a. let one = sole j in ground arith), still_open, closer)))

close-InTurn :
    (i : ℕ) (p : Phase) (s : State) → s.workers i ≡ p → InTurn s → InTurn (close_done i p s)
unfolding InTurn Busy close_done
close-InTurn i idle s at_i h = h
close-InTurn i working s at_i h = h
close-InTurn i finished s at_i h = h
close-InTurn i selected s at_i (calm, inl (over, shut)) = let none_here = over i in cc
close-InTurn i selected s at_i (calm, inr (k, (active, sole, still_open, closer))) =
    let same = sole i (ground arith) in
    rw still_open (ground arith, inl ((λ j. let one = sole j in ground arith), ground arith))

await-InTurn : (c : Closer) (s : State) → s.closer ≡ c → InTurn s → InTurn (await_done c s)
unfolding InTurn Busy await_done
await-InTurn (waiting c) s at h = h
await-InTurn passed s at h = h
await-InTurn not_called s at (calm, inl quiet) = (calm, inl quiet)
await-InTurn not_called s at (calm, inr (k, (active, sole, still_open, closer))) =
    (calm, inr (k, (active, sole, still_open, inr refl)))

receive-InTurn : (c : Closer) (s : State) → s.closer ≡ c → InTurn s → InTurn (receive_done c s)
unfolding InTurn Busy receive_done
receive-InTurn not_called s at h = h
receive-InTurn passed s at h = h
receive-InTurn (waiting c) s at (calm, inl quiet) = elim (Bool-cases (s.closed c)) [
  | inl e ↦ rw e (calm, inl quiet)
  | inr e ↦ rw e (calm, inl quiet)
]
receive-InTurn (waiting c) s at (calm, inr (k, (active, sole, still_open, closer))) =
    let still_closed : s.closed c ≡ false = ground arith in
    rw still_closed (calm, inr (k, (active, sole, still_open, closer)))

step-InTurn : (turn : Turn) (s : State) → Allowed turn s → InTurn s → InTurn (step turn s)
unfolding step perform
step-InTurn turn s allowed h = elim s.panicked as (λ b. InTurn (if b then s else perform turn s)) [
  | true ↦ h
  | false ↦ performed turn allowed
]
  where
    performed : (t : Turn) → Allowed t s → InTurn (perform t s)
    performed (start i) (over, uncalled) = start-InTurn i (s.workers i) s refl over uncalled h
    performed (select i) _ = select-InTurn i (s.workers i) s refl h
    performed (close i) _ = close-InTurn i (s.workers i) s refl h
    performed await _ = await-InTurn s.closer s refl h
    performed receive _ = receive-InTurn s.closer s refl h

run-InTurn : (turns : List Turn) (s : State) → OneByOne turns s → InTurn s → InTurn (run turns s)
unfolding run OneByOne
run-InTurn [] s _ h = h
run-InTurn (turn ∷ turns) s (allowed, rest) h =
    run-InTurn turns (step turn s) rest (step-InTurn turn s allowed h)

-- When operations start on a new migrator only while no other is at work, and none behind the call of
-- Close, no close panics, and Close gets through only once the work of every operation is over.
pub close_waits :
    (turns : List Turn)
    → OneByOne turns new_state
    → ((run turns new_state).panicked ≡ false)
      × ((run turns new_state).closer ≡ passed → Over (run turns new_state))
unfolding InTurn Busy
close_waits turns one_by_one =
    let (calm, h) = run-InTurn turns new_state one_by_one (refl, inl ((λ i. refl), refl)) in
    (
      calm,
      λ through. elim h [
        | inl (over, _) ↦ over
        | inr (i, (_, _, _, inl e)) ↦ cc
        | inr (i, (_, _, _, inr e)) ↦ cc
      ],
    )

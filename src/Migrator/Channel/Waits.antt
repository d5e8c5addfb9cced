-- ===== src/Migrator/Channel/Waits.antt =====
-- `Close` gets through: in whatever order the turns come, once no operation is at work the channel
-- is closed.
use kit_legacy.Base.{
  ℕ, ◌≡◌, refl, ◌⊎◌, inl, inr, true, false, Bool-cases, List, [], ◌∷◌, arith, if◌then◌else◌,
}
use kit_legacy.Migrator.Channel.{
  Phase, idle, working, selected, finished, Closer, not_called, waiting, passed, State, new_state,
  Turn, start, select, close, await, receive, start_call, select_done, close_done, await_done,
  receive_done, perform, step, run, is_active,
}

-- The channel is closed, or some operation is still to close it.
unfoldable Closing : State → Type 0
Closing s =
    (s.panicked ≡ true) ⊎ (s.closed s.done ≡ true) ⊎ ((i : ℕ) × (is_active (s.workers i) ≡ true))

start-Closing : (i : ℕ) (p : Phase) (s : State) → Closing s → Closing (start_call i p s)
unfolding Closing start_call
start-Closing i idle s h = inr (inr (i, ground arith))
start-Closing i working s h = h
start-Closing i selected s h = h
start-Closing i finished s h = h

-- The call `i` has found the channel closed, or has closed it, or is the one to close it.
select-Closing : (i : ℕ) (p : Phase) (s : State) → Closing s → Closing (select_done i p s)
unfolding Closing select_done
select-Closing i idle s h = h
select-Closing i selected s h = h
select-Closing i finished s h = h
select-Closing i working s h = elim (Bool-cases (s.closed s.done)) [
  | inl e ↦ inr (inl e)
  | inr e ↦ inr (inr (i, ground arith))
]

close-Closing : (i : ℕ) (p : Phase) (s : State) → Closing s → Closing (close_done i p s)
unfolding Closing close_done
close-Closing i idle s h = h
close-Closing i working s h = h
close-Closing i finished s h = h
close-Closing i selected s h = elim (Bool-cases (s.closed s.done)) [
  | inl e ↦ rw e (inl refl)
  | inr e ↦ rw e (inr (inl (ground arith)))
]

await-Closing : (c : Closer) (s : State) → Closing s → Closing (await_done c s)
unfolding Closing await_done
await-Closing not_called s h = h
await-Closing (waiting c) s h = h
await-Closing passed s h = h

receive-Closing : (c : Closer) (s : State) → Closing s → Closing (receive_done c s)
unfolding Closing receive_done
receive-Closing not_called s h = h
receive-Closing passed s h = h
receive-Closing (waiting c) s h = elim (Bool-cases (s.closed c)) [ inl e ↦ rw e h | inr e ↦ rw e h ]

step-Closing : (turn : Turn) (s : State) → Closing s → Closing (step turn s)
unfolding step perform
step-Closing turn s h = elim s.panicked as (λ b. Closing (if b then s else perform turn s)) [
  | true ↦ h
  | false ↦ performed turn
]
  where
    performed : (t : Turn) → Closing (perform t s)
    performed (start i) = start-Closing i (s.workers i) s h
    performed (select i) = select-Closing i (s.workers i) s h
    performed (close i) = close-Closing i (s.workers i) s h
    performed await = await-Closing s.closer s h
    performed receive = receive-Closing s.closer s h

run-Closing : (turns : List Turn) (s : State) → Closing s → Closing (run turns s)
unfolding run
run-Closing [] s h = h
run-Closing (turn ∷ turns) s h = run-Closing turns (step turn s) (step-Closing turn s h)

gets_through :
    (s : State)
    → s.panicked ≡ false
    → s.closed s.done ≡ true
    → s.closer ≡ not_called
    → (run (await ∷ receive ∷ []) s).closer ≡ passed
unfolding run step perform await_done receive_done
gets_through s calm closed idle_closer = ground arith

-- Whatever the turns of the operations on a new migrator, overlapping ones included: when none of them
-- is at work and no close has panicked, a call of Close that begins its wait then gets through.
pub close_gets_through :
    (turns : List Turn)
    → (run turns new_state).panicked ≡ false
    → (run turns new_state).closer ≡ not_called
    → ((i : ℕ) → is_active ((run turns new_state).workers i) ≡ false)
    → (run (await ∷ receive ∷ []) (run turns new_state)).closer ≡ passed
unfolding Closing
close_gets_through turns calm idle_closer over =
    elim (run-Closing turns new_state (inr (inl refl))) [
      | inl e ↦ cc
      | inr (inl closed) ↦ gets_through (run turns new_state) calm closed idle_closer
      | inr (inr (i, active)) ↦ let rest = over i in cc
    ]

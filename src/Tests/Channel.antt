-- ===== src/Tests/Channel.antt =====
-- Schedules of the migrator's channel.
use kit_legacy.Base.{◌≡◌, refl, true, false, List, [], ◌∷◌, arith, ℕ}
use kit_legacy.Migrator.Channel.{
  working, not_called, passed, State, new_state, Turn, start, select, close, await, receive, step,
  run, perform, start_call, select_done, close_done, await_done, receive_done, is_active,
}
use kit_legacy.Migrator.Channel.Waits.{close_gets_through}
use kit_legacy.Migrator.Channel.Sequential.{OneByOne, Over, close_waits}
use kit_legacy.Migrator.Channel.Races.{overlapping_calls}

-- The second operation starts while the first, timed out, is still at work.
abbrev overlapping : List Turn
overlapping = start 1 ∷ start 2 ∷ select 1 ∷ close 1 ∷ select 2 ∷ []

overlapping-Over : (i : ℕ) → is_active ((run overlapping new_state).workers i) ≡ false
unfolding run step perform start_call select_done close_done
overlapping-Over i = ground arith

overlapping_calm : (run overlapping new_state).panicked ≡ false
unfolding run step perform start_call select_done close_done
overlapping_calm = refl

overlapping_uncalled : (run overlapping new_state).closer ≡ not_called
unfolding run step perform start_call select_done close_done
overlapping_uncalled = refl

close_gets_through_example :
    (run (await ∷ receive ∷ []) (run overlapping new_state)).closer ≡ passed
close_gets_through_example =
    close_gets_through overlapping overlapping_calm overlapping_uncalled overlapping-Over

abbrev one_call : List Turn
one_call = start 1 ∷ await ∷ receive ∷ select 1 ∷ close 1 ∷ receive ∷ []

one_call-OneByOne : OneByOne one_call new_state
unfolding OneByOne run step perform start_call select_done close_done await_done receive_done
one_call-OneByOne = (((λ i. refl), refl), (tt, (tt, (tt, (tt, (tt, tt))))))

close_waits_example :
    ((run one_call new_state).panicked ≡ false)
    × ((run one_call new_state).closer ≡ passed → Over (run one_call new_state))
close_waits_example = close_waits one_call one_call-OneByOne

abbrev two_at_work : State
two_at_work = record {
  done = 2;
  closed = λ c. false;
  workers = λ i. working;
  closer = not_called;
  panicked = false;
}

overlapping_calls_example :
    ((run (select 1 ∷ close 1 ∷ await ∷ receive ∷ []) two_at_work).closer ≡ passed)
    × ((run (select 1 ∷ close 1 ∷ await ∷ receive ∷ []) two_at_work).workers 2 ≡ working)
    × ((run (select 1 ∷ select 2 ∷ close 1 ∷ close 2 ∷ []) two_at_work).panicked ≡ true)
overlapping_calls_example = overlapping_calls 1 2 two_at_work (omega arith) refl refl refl refl refl

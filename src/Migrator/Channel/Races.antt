-- ===== src/Migrator/Channel/Races.antt =====
-- What two operations at work at once can do to each other and to `Close`.
use kit_legacy.Base.{ℕ, ◌≡◌, ◌≢◌, true, false, [], ◌∷◌, arith}
use kit_legacy.Migrator.Channel.{
  working, not_called, passed, State, select, close, await, receive, start_call, select_done,
  close_done, await_done, receive_done, perform, step, run,
}

-- Two operations at work at once, as when the caller starts one after a time-out: the end of either lets
-- Close through while the other is at work; and if both find the channel open, the second close panics.
pub overlapping_calls :
    (i j : ℕ) (s : State)
    → i ≢ j
    → s.panicked ≡ false
    → s.closer ≡ not_called
    → s.closed s.done ≡ false
    → s.workers i ≡ working
    → s.workers j ≡ working
    → ((run (select i ∷ close i ∷ await ∷ receive ∷ []) s).closer ≡ passed)
      × ((run (select i ∷ close i ∷ await ∷ receive ∷ []) s).workers j ≡ working)
      × ((run (select i ∷ select j ∷ close i ∷ close j ∷ []) s).panicked ≡ true)
unfolding run step perform start_call select_done close_done await_done receive_done
overlapping_calls i j s other calm uncalled still_open work_i work_j =
    (ground arith, ground arith, ground arith)

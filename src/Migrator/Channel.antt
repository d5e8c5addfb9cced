-- ===== src/Migrator/Channel.antt =====
-- The channel `done` of migrator.go under operations that overlap: an operation that has timed out goes
-- on in its goroutine, while the caller starts the next one or closes the migrator. Each call is a turn of
-- a schedule, and what golang-migrate does in between is left open. `Close` is called once.
pub mod Waits
pub mod Sequential
pub mod Races
use kit_legacy.Base.{ℕ, suc, ◌+◌, ◌==◌, Bool, true, false, List, [], ◌∷◌, if◌then◌else◌}

-- Where the goroutine of a call of `Assert`, `Apply` or `Rollback` is. `selected` stands between the
-- `select`, which has found the channel open, and the call of `close`.
pub data Phase : Type 0 where
  idle working selected finished : Phase

-- Where `Close` is; a receive waits for the channel that the field held when it began.
pub data Closer : Type 0 where
  not_called : Closer
  waiting : ℕ → Closer
  passed : Closer

-- The calls are told apart by numbers, and so are the channels, in the order of their making.
pub record State : Type 0 where
  pub done : ℕ
  pub closed : ℕ → Bool
  pub workers : ℕ → Phase
  pub closer : Closer
  pub panicked : Bool

-- `close(done)` in `NewMigrator`
abbrev pub new_state : State
new_state = record {
  done = 0;
  closed = λ c. true;
  workers = λ i. idle;
  closer = not_called;
  panicked = false;
}

abbrev pub update {ℓ} : {A : Type ℓ} → (ℕ → A) → ℕ → A → ℕ → A
update f i a j = if j == i then a else f j

pub data Turn : Type 0 where
  -- the first line of an operation; the `select` behind its work; the call of `close`
  start select close : ℕ → Turn
  -- `Close`: the receive begins, and goes on
  await receive : Turn

-- `self.done = make(chan struct{}, 1)`
unfoldable pub start_call : ℕ → Phase → State → State
start_call i idle s = record s {
  done = suc s.done;
  closed = update s.closed (suc s.done) false;
  workers = update s.workers i working;
}
start_call i _ s = s

-- `select { case <-self.done: default: … }`
unfoldable pub select_done : ℕ → Phase → State → State
select_done i working s = record s {
  workers = update s.workers i (if s.closed s.done then finished else selected);
}
select_done i _ s = s

-- `close(self.done)`, which panics on a closed channel; a panic of a goroutine ends the process.
unfoldable pub close_done : ℕ → Phase → State → State
close_done i selected s =
    if s.closed s.done
    then record s { panicked = true }
    else record s { closed = update s.closed s.done true; workers = update s.workers i finished }
close_done i _ s = s

unfoldable pub await_done : Closer → State → State
await_done not_called s = record s { closer = waiting s.done }
await_done _ s = s

-- `<-self.done`
unfoldable pub receive_done : Closer → State → State
receive_done (waiting c) s = if s.closed c then record s { closer = passed } else s
receive_done _ s = s

unfoldable pub perform : Turn → State → State
perform (start i) s = start_call i (s.workers i) s
perform (select i) s = select_done i (s.workers i) s
perform (close i) s = close_done i (s.workers i) s
perform await s = await_done s.closer s
perform receive s = receive_done s.closer s

unfoldable pub step : Turn → State → State
step turn s = if s.panicked then s else perform turn s

unfoldable pub run : List Turn → State → State
run [] s = s
run (turn ∷ turns) s = run turns (step turn s)

-- The work of the call is not over.
abbrev pub is_active : Phase → Bool
is_active idle = false
is_active working = true
is_active selected = true
is_active finished = false

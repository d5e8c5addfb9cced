-- ===== src/Services/Tasks/Registering.antt =====
-- Which tasks `Worker.Schedule` registers.
use kit_legacy.Base.{
  String, ap, ◌∙◌, ◌&◌, ◌≡◌, refl, true, false, ◌||◌, if◌then◌else◌, Option, none, some, ◌∷◌, arith,
}
use kit_legacy.Errors.Value.{GoError, ErrorsLib, error_text}
use kit_legacy.World.Event.{Any, ZLevel, writes, Event, World}
use kit_legacy.World.Action.{returned, panicked, bind-returned, bind-panicked, ask, ◌>>=◌}
use kit_legacy.Observe.Level.{lvl_debug, lvl_error, ◌>=◌}
use kit_legacy.Observe.Logger
use kit_legacy.Observe.Logger.{ZerologLib}
use kit_legacy.Observe.Observer
use kit_legacy.Observe.Observer.{Observer}
use kit_legacy.Services.Laws.{taken}
use kit_legacy.Services.Tasks.{schedule, panic_on}

-- The text that the observer's logger panics with: the message in debug mode, or where zerolog writes
-- messages of the level panic, and else none.
abbrev pub panic_text : Observer → String → String
panic_text observer text =
    if (lvl_debug >= observer.logger.level) || writes observer.logger.threshold ZLevel.panic
    then text
    else ""

module _ {F : Type 0} ⦃lib : ErrorsLib F⦄ ⦃zerolog : ZerologLib F⦄ where
  panicf_loud :
      (observer : Observer) (text : String) (w : World F)
      → (lvl_error >= observer.config.level) ≡ true
      → ((Observer.panicf observer text w).0 ≡ panicked (Any.a_string (panic_text observer text)))
        × (taken (Observer.panicf observer text w).1 ≡ taken w)
  unfolding Observer.panicf Observer.at_level Logger.panicf Logger.print_debug_error Observer.report
      taken
  panicf_loud observer text w loud =
      ground (arith, zerolog.panic_panics observer.logger.threshold text w)

  panicf_silent :
      (observer : Observer) (text : String) (w : World F)
      → (lvl_error >= observer.config.level) ≡ false
      → Observer.panicf observer text w ≡ (returned tt, w)
  unfolding Observer.panicf Observer.at_level
  panicf_silent observer text w silent = ground arith

  panic_on_silent :
      (observer : Observer) (task : String) (err : Option (GoError F)) (w : World F)
      → (lvl_error >= observer.config.level) ≡ false
      → panic_on observer task err w ≡ (returned tt, w)
  unfolding panic_on
  panic_on_silent observer task none w silent = refl
  panic_on_silent observer task (some err) w silent =
      panicf_silent observer (task & ": " & error_text err) w silent

  -- Parameters that cannot be encoded: on an observer that logs errors, Schedule panics and registers
  -- nothing, and the panic's text is the task and the error, or is empty where the observer's logger is
  -- out of debug mode at a level of zerolog above panic; on an observer that does not log errors, as with
  -- LvlNone, it goes on, and the scheduler is given the task.
  pub schedule_lem :
      (marshal : GoError F) (register : World F → Option (GoError F)) (observer : Observer)
      (task : String) (w : World F)
      → ((lvl_error >= observer.config.level) ≡ true
          → ((schedule (some marshal) register observer task w).0
              ≡ panicked (Any.a_string (panic_text observer (task & ": " & error_text marshal))))
            × (taken (schedule (some marshal) register observer task w).1 ≡ taken w))
        × ((lvl_error >= observer.config.level) ≡ false
            → schedule (some marshal) register observer task w
              ≡ (returned tt, Event.enqueued task (register w) ∷ w))
  unfolding schedule panic_on
  schedule_lem marshal register observer task w =
      let text = task & ": " & error_text marshal in
      let next = λ (_ : Unit {0}).
        ask register (Event.enqueued task) >>= λ err. panic_on observer task err in
      let noted = Event.enqueued task (register w) ∷ w in
      (
        λ loud.
            let (e, t) = panicf_loud observer text w loud in
            let course = bind-panicked (Observer.panicf observer text) next w _ e in
            (ap (λ c. c.0) course, ap (λ c. taken c.1) course ∙ t),
        λ silent.
            let first = panicf_silent observer text w silent in
            let course =
              bind-returned (Observer.panicf observer text) next w tt (ap (λ c. c.0) first) in
            course
            ∙ (ap (λ c. next tt c.1) first
                ∙ panic_on_silent observer task (register w) noted silent),
      )

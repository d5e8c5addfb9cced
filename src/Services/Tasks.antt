-- ===== src/Services/Tasks.antt =====
-- worker.go: `Schedule`, and the logger and the error handler that asynq is given.
pub mod Registering
use kit_legacy.Base.{String, ◌&◌, Option, none, some, List, [], ◌∷◌}
use kit_legacy.Errors.Value.{GoError, ErrorsLib, error_text}
use kit_legacy.World.Event.{Any, Event, World}
use kit_legacy.World.Action.{Action, pure, ask, ◌>>=◌, ◌>>◌}
use kit_legacy.Observe.Logger.{ZerologLib}
use kit_legacy.Observe.Observer
use kit_legacy.Observe.Observer.{Observer}

module _ {F : Type 0} ⦃lib : ErrorsLib F⦄ where
  -- `_asynqLogger`
  unfoldable pub asynq_debug : Observer → List (Any F) → Action F (Unit {0})
  asynq_debug observer args = Observer.debug observer args

  unfoldable pub asynq_info : Observer → List (Any F) → Action F (Unit {0})
  asynq_info observer args = Observer.info observer args

  unfoldable pub asynq_warn : Observer → List (Any F) → Action F (Unit {0})
  asynq_warn observer args = Observer.warn observer args

  unfoldable pub asynq_error : Observer → List (Any F) → Action F (Unit {0})
  asynq_error observer args = Observer.log_error observer args

  -- `_asynqErrorHandler`; `task` is the type of the task.
  unfoldable pub handle_error : Observer → String → GoError F → Action F (Unit {0})
  handle_error observer task err = Observer.errorf observer (task & ": " & error_text err)

  unfoldable pub handle_process_error : Observer → String → GoError F → Action F (Unit {0})
  handle_process_error observer task err = handle_error observer task err

  unfoldable pub handle_enqueue_error : Observer → String → GoError F → Action F (Unit {0})
  handle_enqueue_error observer task err = handle_error observer task err

  -- `PostEnqueueFunc`; `task_info` is how the task's information prints.
  unfoldable pub post_enqueue : Observer → String → Option (GoError F) → Action F (Unit {0})
  post_enqueue observer task_info none = Observer.infof observer ("Enqueued task " & task_info)
  post_enqueue observer task_info (some err) = pure tt

module _ {F : Type 0} ⦃lib : ErrorsLib F⦄ ⦃zerolog : ZerologLib F⦄ where
  unfoldable pub asynq_fatal : Observer → List (Any F) → Action F (Unit {0})
  asynq_fatal observer args = Observer.fatal observer args

  panic_on : Observer → String → Option (GoError F) → Action F (Unit {0})
  panic_on observer task none = pure tt
  panic_on observer task (some err) = Observer.panicf observer (task & ": " & error_text err)

  -- `Worker.Schedule`: `marshal` is the error of encoding the parameters, `register` the reply of the
  -- scheduler. Each error is given to `Panicf`.
  unfoldable pub schedule :
      Option (GoError F) → (World F → Option (GoError F)) → Observer → String → Action F (Unit {0})
  unfolding panic_on
  schedule marshal register observer task = do
    panic_on observer task marshal
    err ← ask register (Event.enqueued task)
    panic_on observer task err

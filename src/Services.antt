-- ===== src/Services.antt =====
-- The methods of enqueuer.go, server.go and worker.go that start, use and stop the services of other
-- packages. `Construct` is their constructors, `Routing` what they hand on to routers, and `Tasks` the
-- scheduling of tasks with the logger and the error handler of asynq.
pub mod Laws
pub mod Construct
pub mod Tasks
pub mod Routing
use kit_legacy.Base.{ℤ, String, ◌&◌, show_ℤ, Bool, Option, none, some, List, [], ◌∷◌, if◌then◌else◌}
use kit_legacy.Errors.Value.{GoError, ErrorsLib, is_sentinel}
use kit_legacy.Errors.Error.{to_error, wrap, wrap_as, Error}
use kit_legacy.Errors.Builtin.{
  err_enqueuer_generic, err_enqueuer_timed_out, err_server_generic, err_server_timed_out,
  err_worker_generic, err_worker_timed_out,
}
use kit_legacy.World.Event.{a_string, Event, World}
use kit_legacy.World.Action.{Fallible, pure, ask, emit, unless_err, ◌>>=◌, ◌>>◌}
use kit_legacy.World.Context.{Context}
use kit_legacy.Utils.Deadline.{DeadlineLib, bounded}
use kit_legacy.Observe.Observer.{Observer, info, infof}

-- github.com/hibiken/asynq, echo and encoding/json: the replies, the text of a task's information, and
-- the values of `http.ErrServerClosed` and `asynq.ErrServerClosed`.
pub record ServiceEnv (F : Type 0) : Type 0 where
  pub marshal : Option (GoError F)
  pub enqueue_context : World F → Option (GoError F)
  pub task_info : String
  pub close_client : World F → Option (GoError F)
  pub start : World F → Option (GoError F)
  pub start_scheduler : World F → Option (GoError F)
  pub shutdown : World F → Option (GoError F)
  pub err_server_closed : F

module _ {F : Type 0} ⦃lib : ErrorsLib F⦄ where
  unfoldable pub generic : Error F → GoError F → Option (GoError F)
  generic kind err = some (to_error (wrap kind (some err)))

  -- `err != nil && err != ErrServerClosed`
  unfoldable pub start_error : ServiceEnv F → Option (GoError F) → Option (GoError F)
  start_error env none = none
  start_error env (some err) = if is_sentinel env.err_server_closed err then none else some err

module _ {F : Type 0} ⦃lib : ErrorsLib F⦄ (observer : Observer) (env : ServiceEnv F) where
  -- `Enqueuer.Enqueue`
  unfoldable pub enqueue : String → Fallible F
  enqueue task = unless_err env.marshal (generic err_enqueuer_generic) do
    err ← ask env.enqueue_context (Event.enqueued task)
    unless_err err (generic err_enqueuer_generic)
        do infof observer ("Enqueued task " & env.task_info); pure none

  -- `Server.Run`
  unfoldable pub server_run : ℤ → Fallible F
  server_run app_port = do
    infof observer ("Server started at port " & show_ℤ app_port)
    err ← ask env.start (Event.started "server")
    unless_err (start_error env err) (generic err_server_generic) (pure none)

  -- `Worker.Run`; `queues` is how the queues print.
  unfoldable pub worker_run : String → Fallible F
  worker_run queues = do
    infof observer ("Worker started with queues " & queues)
    err ← ask env.start (Event.started "worker")
    unless_err (start_error env err) (generic err_worker_generic) do
      err' ← ask env.start_scheduler (Event.started "scheduler")
      unless_err err' (generic err_worker_generic) (pure none)

  -- The inner functions of the three `Close` methods.
  unfoldable pub enqueuer_close_work : Fallible F
  enqueuer_close_work = do
    info observer (a_string "Closing enqueuer" ∷ [])
    err ← ask env.close_client Event.client_closed
    unless_err err (λ e. some (to_error (wrap_as err_enqueuer_generic (some e))))
        do info observer (a_string "Closed enqueuer" ∷ []); pure none

  unfoldable pub server_close_work : Fallible F
  server_close_work = do
    info observer (a_string "Closing server" ∷ [])
    err ← ask env.shutdown (Event.stopped "server")
    unless_err err (λ e. some (to_error (wrap_as err_server_generic (some e))))
        do info observer (a_string "Closed server" ∷ []); pure none

  unfoldable pub worker_close_work : Fallible F
  worker_close_work = do
    info observer (a_string "Closing worker" ∷ [])
    emit (Event.stopped "scheduler" none)
    emit (Event.stopped "worker processing" none)
    emit (Event.stopped "worker" none)
    info observer (a_string "Closed worker" ∷ [])
    pure none

module _ {F : Type 0} ⦃lib : ErrorsLib F⦄ ⦃timer : DeadlineLib F⦄ (observer : Observer)
    (env : ServiceEnv F) (ctx : Context F) where
  unfoldable pub enqueuer_close : Fallible F
  enqueuer_close =
      bounded ctx err_enqueuer_timed_out err_enqueuer_generic (enqueuer_close_work observer env)

  unfoldable pub server_close : Fallible F
  server_close =
      bounded ctx err_server_timed_out err_server_generic (server_close_work observer env)

  unfoldable pub worker_close : Fallible F
  worker_close =
      bounded ctx err_worker_timed_out err_worker_generic (worker_close_work observer env)

-- ===== src/Services/Laws.antt =====
-- When the services' methods succeed.
use kit_legacy.Base.{
  ◌&◌, inl, inr, Option-cases, String, ◌≡◌, ◌↔◌, ◌⊎◌, none, some, List, [], ◌∷◌, arith,
}
use kit_legacy.Errors.Value.{GoError, ErrorsLib}
use kit_legacy.Errors.Builtin.{err_enqueuer_generic, err_worker_generic}
use kit_legacy.World.Event.{Event, World}
use kit_legacy.World.Action.{returned}
use kit_legacy.Observe.Observer
use kit_legacy.Observe.Logger
use kit_legacy.Services.{ServiceEnv, generic, start_error, enqueue, worker_run}

-- What a trace has asked asynq for: the tasks that it took.
unfoldable pub taken : {F : Type 0} → World F → List String
taken [] = []
taken (Event.enqueued task none ∷ w) = task ∷ taken w
taken (_ ∷ w) = taken w

module _ {F : Type 0} ⦃lib : ErrorsLib F⦄ (observer : Observer.Observer) (env : ServiceEnv F) where
  infof-taken :
      (text : String) (w : World F)
      → ((Observer.infof observer text w).0 ≡ returned tt)
        × (taken (Observer.infof observer text w).1 ≡ taken w)
  unfolding taken Observer.infof Observer.at_level Logger.infof
  infof-taken text w = ground arith

  -- Enqueue returns nil behind a task that asynq has taken, or the enqueuer's generic error around the
  -- error of encoding or of asynq, with no task taken.
  pub enqueue_lem :
      (task : String) (w : World F)
      → let y = enqueue observer env task w in
        ((y.0 ≡ returned none) × (taken y.1 ≡ task ∷ taken w))
        ⊎ ((err : GoError F) × ((env.marshal ≡ some err) ⊎ (env.enqueue_context w ≡ some err))
            × (y.0 ≡ returned (generic err_enqueuer_generic err))
            × (taken y.1 ≡ taken w))
  unfolding enqueue taken
  enqueue_lem task w =
      let quiet = infof-taken ("Enqueued task " & env.task_info) (Event.enqueued task none ∷ w) in
      elim (Option-cases env.marshal) [
        | inr (err, e) ↦ inr (err, inl e, ground arith, ground arith)
        | inl e ↦ elim (Option-cases (env.enqueue_context w)) [
          | inr (err, e') ↦ inr (err, inr e', ground arith, ground arith)
          | inl e' ↦ inl (ground arith, ground arith)
        ]
      ]

  started_quiet : (text : String) (w : World F) → (Observer.infof observer text w).0 ≡ returned tt
  started_quiet text w = (infof-taken text w).0

  -- Whatever was logged, Worker.Run starts the scheduler exactly when the server has started or was
  -- closed, and returns nil exactly when the scheduler has started too; otherwise it returns the worker's
  -- generic error around the server's.
  pub worker_run_lem :
      (queues : String) (w : World F)
      → let logged = (Observer.infof observer ("Worker started with queues " & queues) w).1 in
        let first = env.start logged in
        let next = Event.started "worker" first ∷ logged in
        let y = worker_run observer env queues w in
        (start_error env first ≡ none
          → (y.1 ≡ Event.started "scheduler" (env.start_scheduler next) ∷ next)
            × ((y.0 ≡ returned none) ↔ (env.start_scheduler next ≡ none)))
        × ((err : GoError F)
            → start_error env first ≡ some err
            → (y.1 ≡ next) × (y.0 ≡ returned (generic err_worker_generic err)))
  unfolding worker_run generic
  worker_run_lem queues w =
      let quiet = started_quiet ("Worker started with queues " & queues) w in
      (λ ok. ground arith, λ err e. ground arith)

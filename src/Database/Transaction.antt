-- ===== src/Database/Transaction.antt =====
-- `Database.Transaction` of database.go.
pub mod Laws
pub mod Errors
pub mod Failing
pub mod Panics
use kit_legacy.Base.{ℤ, String, Bool, true, false, Option, none, some, List, [], ◌∷◌, if◌then◌else◌}
use kit_legacy.Errors.Value.{GoError, foreign, ErrorsLib, combine_errors}
use kit_legacy.Errors.Error.{Error, to_error, wrap, wrap_as}
use kit_legacy.Errors.Builtin.{err_database_transaction_failed}
use kit_legacy.World.Event.{Any, nil, an_error, a_string, other, Event, World}
use kit_legacy.World.Action.{
  Outcome, returned, panicked, exited, Action, Fallible, pure, panic_with, ask, look, unless_err,
  ◌>>=◌,
}
use kit_legacy.World.Context.{Context}
use kit_legacy.Database.Store.{PgxEnv}

-- The context that the function of a transaction is given.
abbrev pub within : {F : Type 0} → Context F → Context F
within ctx = record ctx { transaction = true }

module _ {F : Type 0} ⦃lib : ErrorsLib F⦄ where
  unfoldable pub failed : Option (GoError F) → Option (GoError F)
  failed err = some (to_error (wrap err_database_transaction_failed err))

module _ {F : Type 0} ⦃lib : ErrorsLib F⦄ (env : PgxEnv F) where
  -- `errR := transaction.Rollback(ctx); return ErrDatabaseTransactionFailed().Wrap(…)`
  unfoldable pub roll_back_for : GoError F → Fallible F
  roll_back_for err = do
    err_r ← ask env.rollback Event.rolled_back
    pure (failed (combine_errors (some err) err_r))

  -- The checks behind the function, up to the last `return nil`.
  unfoldable pub commit_work : Context F → Fallible F
  commit_work ctx = do
    done ← look ctx.err
    elim done [
      | some err ↦ roll_back_for err
      | none ↦ do
        committed ← ask env.commit Event.committed
        elim committed [
          | some err ↦ roll_back_for err
          | none ↦ do
            late ← look ctx.err
            elim late [ some err ↦ roll_back_for err | none ↦ pure none ]
        ]
    ]

  -- What the deferred function panics with: `Utils.CombineErrors(err.(error), errR)`. The conversion
  -- of a value that is no error panics itself.
  unfoldable pub repanic_value : Any F → Option (GoError F) → Any F
  repanic_value (an_error err) err_r = elim (combine_errors (some err) err_r) [
    | some both ↦ an_error both
    | none ↦ nil
  ]
  repanic_value v err_r = an_error (foreign (env.conversion_error v))

  unfoldable pub repanic : Any F → Fallible F
  repanic v = do err_r ← ask env.rollback Event.rolled_back; panic_with (repanic_value v err_r)

  -- The function's outcome under the deferred `recover`. Since Go 1.21 `panic(nil)` panics with an
  -- error, so a panic always recovers a value.
  unfoldable pub after_fn :
      Context F
      → Outcome F (Option (GoError F)) × World F
      → Outcome F (Option (GoError F)) × World F
  after_fn ctx (returned none, w) = commit_work ctx w
  after_fn ctx (returned (some err), w) = roll_back_for err w
  after_fn ctx (panicked v, w) = repanic v w
  after_fn ctx (exited code, w) = (exited code, w)

  unfoldable pub in_transaction : Context F → (Context F → Fallible F) → Fallible F
  in_transaction ctx fn w = after_fn ctx (fn (within ctx) w)

  unfoldable pub outermost : Context F → (Context F → Fallible F) → Fallible F
  outermost ctx fn = do
    begun ← ask env.begin_tx Event.began
    elim begun [
      | some err ↦ pure (failed (some err))
      | none ↦ do
        done ← look ctx.err
        elim done [ some err ↦ pure (failed (some err)) | none ↦ in_transaction ctx fn ]
    ]

  unfoldable pub nested : Context F → (Context F → Fallible F) → Fallible F
  nested ctx fn = do
    err ← fn ctx
    unless_err err (λ e. some (to_error (wrap_as err_database_transaction_failed (some e))))
        (pure none)

  unfoldable pub transaction : Context F → (Context F → Fallible F) → Fallible F
  transaction ctx fn = if ctx.transaction then nested ctx fn else outermost ctx fn

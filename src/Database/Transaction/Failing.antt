-- ===== src/Database/Transaction/Failing.antt =====
-- What makes `Transaction` of database.go fail.
use kit_legacy.Base.{◌≡◌, refl, sym, ap, subst, ◌∙◌, false, Option, none, some, ◌∷◌}
use kit_legacy.Errors.Value.{GoError, ErrorsLib}
use kit_legacy.World.Event.{Event, World}
use kit_legacy.World.Action.{Outcome, returned, Fallible}
use kit_legacy.World.Context.{Context}
use kit_legacy.Database.Store.{PgxEnv}
use kit_legacy.Database.Transaction.{
  transaction, outermost, in_transaction, after_fn, commit_work, roll_back_for, within, failed,
}
use kit_legacy.Database.Transaction.Errors.{
  Tells, wrapped-Tells, combined-Tells, rolled, FailsToCommit, done_behind_fn, commit_refused,
  done_behind_commit, Fails, begin_refused, done_behind_begin, fn_failed, fails_to_commit,
}

module _ {F : Type 0} ⦃lib : ErrorsLib F⦄ where
  -- A call that fails for the cause, and ends on the trace.
  abbrev pub FailsWith : GoError F → World F → Outcome F (Option (GoError F)) × World F → Type 0
  FailsWith cause w' y = (err : GoError F) × ((y ≡ (returned (some err), w')) × Tells cause err)

module _ {F : Type 0} ⦃lib : ErrorsLib F⦄ (env : PgxEnv F) (ctx : Context F) where
  roll_back_for-FailsWith :
      (cause : GoError F) (w w' : World F)
      → w' ≡ rolled env w
      → FailsWith cause w' (roll_back_for env cause w)
  unfolding roll_back_for
  roll_back_for-FailsWith cause w w' e =
      let (err, failing, tells) = combined-Tells cause (env.rollback w) in
      (
        err,
        (
          ap (λ r. (returned r, rolled env w)) failing ∙ ap (λ z. (returned (some err), z)) (sym e),
          tells,
        ),
      )

  commit_work-FailsWith :
      (x : World F) (cause : GoError F) (w' : World F)
      → FailsToCommit env ctx x cause w'
      → FailsWith cause w' (commit_work env ctx x)
  unfolding commit_work
  commit_work-FailsWith x cause w' (done_behind_fn done e) =
      rw done (roll_back_for-FailsWith cause x w' e)
  commit_work-FailsWith x cause w' (commit_refused in_time refused e) =
      rw (in_time, refused) (roll_back_for-FailsWith cause (Event.committed (some cause) ∷ x) w' e)
  commit_work-FailsWith x cause w' (done_behind_commit in_time accepted late e) =
      rw (in_time, accepted, late) (roll_back_for-FailsWith cause (Event.committed none ∷ x) w' e)

  after_fn-by :
      (outcome : Outcome F (Option (GoError F))) (cause : GoError F) (w' : World F)
      (reply : Outcome F (Option (GoError F)) × World F)
      → reply.0 ≡ outcome
      → FailsWith cause w' (after_fn env ctx (outcome, reply.1))
      → FailsWith cause w' (after_fn env ctx reply)
  after_fn-by outcome cause w' reply e =
      subst (λ o. FailsWith cause w' (after_fn env ctx (o, reply.1))) (sym e)

  -- Whatever may make an outermost Transaction fail does: where the begin, the function, the commit or
  -- one of the three checks of the context behind them gives an error, and all before went well, the
  -- Transaction returns ErrDatabaseTransactionFailed around it. So it fails although the commit was
  -- accepted, where the context is done behind it, and leaves the transaction open, where the context
  -- is done right behind the begin.
  pub transaction-Fails :
      (fn : Context F → Fallible F) (w w' : World F) (cause : GoError F)
      → ctx.transaction ≡ false
      → Fails env ctx fn w cause w'
      → FailsWith cause w' (transaction env ctx fn w)
  unfolding transaction outermost in_transaction after_fn failed
  transaction-Fails fn w w' cause out (begin_refused refused e) =
      rw (out, refused, e) (_, (refl, wrapped-Tells cause))
  transaction-Fails fn w w' cause out (done_behind_begin begun done e) =
      rw (out, begun, done, e) (_, (refl, wrapped-Tells cause))
  transaction-Fails fn w w' cause out (fn_failed begun ready e rolls) =
      rw (out, begun, ready)
        (after_fn-by (returned (some cause)) cause w' (fn (within ctx) (Event.began none ∷ w)) e
          (roll_back_for-FailsWith cause (fn (within ctx) (Event.began none ∷ w)).1 w' rolls))
  transaction-Fails fn w w' cause out (fails_to_commit begun ready e fails) =
      rw (out, begun, ready)
        (after_fn-by (returned none) cause w' (fn (within ctx) (Event.began none ∷ w)) e
          (commit_work-FailsWith (fn (within ctx) (Event.began none ∷ w)).1 cause w' fails))

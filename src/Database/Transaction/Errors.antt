-- ===== src/Database/Transaction/Errors.antt =====
-- The errors that `Transaction` of database.go returns, with their causes.
use kit_legacy.Base.{
  ◌&◌, ◌≡◌, refl, sym, ap, subst, ◌∙◌, true, false, Option, none, some, Option-cases, inl, inr, ◌∷◌,
  if◌then◌else◌,
}
use kit_legacy.Errors.Value.{GoError, ErrorsLib, error_text, combine_errors}
use kit_legacy.Errors.Error.{to_error, wrap, is_error, new_error}
use kit_legacy.Errors.Builtin.{err_database_transaction_failed}
use kit_legacy.World.Event.{Event, World}
use kit_legacy.World.Action.{Outcome, returned, panicked, exited, Fallible}
use kit_legacy.World.Context.{Context}
use kit_legacy.Database.Store.{PgxEnv}
use kit_legacy.Database.Transaction.{
  transaction, outermost, nested, in_transaction, after_fn, commit_work, roll_back_for, repanic,
  within, failed,
}

module _ {F : Type 0} ⦃lib : ErrorsLib F⦄ where
  -- The error is the transaction's, and tells its cause.
  abbrev pub Tells : GoError F → GoError F → Type 0
  Tells cause err =
      (is_error err_database_transaction_failed err ≡ true)
      × (error_text err ≡ "database transaction failed" & ": " & error_text cause)

  pub wrapped-Tells :
      (cause : GoError F)
      → Tells cause (to_error (wrap err_database_transaction_failed (some cause)))
  unfolding wrap is_error new_error
  wrapped-Tells cause =
      (refl, lib.text-wrap_with_depth 1 cause "database transaction failed" (λ e. cc))

  pub combined-Tells :
      (cause : GoError F) (second : Option (GoError F))
      → (err : GoError F) × (failed (combine_errors (some cause) second) ≡ some err)
        × Tells cause err
  unfolding failed
  combined-Tells cause second =
      let (both, e, text) = lib.combine-some cause second in
      let (is_failed, told) = wrapped-Tells both in
      (
        to_error (wrap err_database_transaction_failed (some both)),
        ap (λ err. some (to_error (wrap err_database_transaction_failed err))) e,
        (is_failed, told ∙ ap (λ t. "database transaction failed" & ": " & t) text),
      )

-- The trace with a rollback asked for.
abbrev pub rolled : {F : Type 0} → PgxEnv F → World F → World F
rolled env w = Event.rolled_back (env.rollback w) ∷ w

module _ {F : Type 0} ⦃lib : ErrorsLib F⦄ (env : PgxEnv F) (ctx : Context F) where
  -- The error that makes a transaction fail once its function has returned nil on the trace `x`, and the
  -- trace that the transaction ends on: the context's, at once or behind the commit, or the commit's.
  pub data FailsToCommit (x : World F) (cause : GoError F) (w' : World F) : Type 0 where
    done_behind_fn : ctx.err x ≡ some cause → w' ≡ rolled env x → FailsToCommit x cause w'
    commit_refused :
        ctx.err x ≡ none
        → env.commit x ≡ some cause
        → w' ≡ rolled env (Event.committed (some cause) ∷ x)
        → FailsToCommit x cause w'
    done_behind_commit :
        ctx.err x ≡ none
        → env.commit x ≡ none
        → ctx.err (Event.committed none ∷ x) ≡ some cause
        → w' ≡ rolled env (Event.committed none ∷ x)
        → FailsToCommit x cause w'

  -- The same of a transaction from the trace `w` on. One that could not begin, or whose context is done
  -- right behind the begin, asks for no rollback.
  pub data Fails (fn : Context F → Fallible F) (w : World F) (cause : GoError F) (w' : World F)
      : Type 0 where
    begin_refused :
        env.begin_tx w ≡ some cause → w' ≡ Event.began (some cause) ∷ w → Fails fn w cause w'
    done_behind_begin :
        env.begin_tx w ≡ none
        → ctx.err (Event.began none ∷ w) ≡ some cause
        → w' ≡ Event.began none ∷ w
        → Fails fn w cause w'
    fn_failed :
        env.begin_tx w ≡ none
        → ctx.err (Event.began none ∷ w) ≡ none
        → (fn (within ctx) (Event.began none ∷ w)).0 ≡ returned (some cause)
        → w' ≡ rolled env (fn (within ctx) (Event.began none ∷ w)).1
        → Fails fn w cause w'
    fails_to_commit :
        env.begin_tx w ≡ none
        → ctx.err (Event.began none ∷ w) ≡ none
        → (fn (within ctx) (Event.began none ∷ w)).0 ≡ returned none
        → FailsToCommit (fn (within ctx) (Event.began none ∷ w)).1 cause w'
        → Fails fn w cause w'

  -- What a call that returns an error tells, where `Cause` says what may be the cause.
  abbrev Explained :
      (GoError F → World F → Type 0) → Outcome F (Option (GoError F)) × World F → Type 0
  Explained Cause (returned (some err), w') =
      (cause : GoError F) × (Cause cause w' × Tells cause err)
  Explained Cause _ = Unit {0}

  roll_back_for-Explained :
      (Cause : GoError F → World F → Type 0) (cause : GoError F) (w : World F)
      → Cause cause (rolled env w)
      → Explained Cause (roll_back_for env cause w)
  unfolding roll_back_for
  roll_back_for-Explained Cause cause w known =
      let (err, e, tells) = combined-Tells cause (env.rollback w) in
      subst (λ r. Explained Cause (returned r, rolled env w)) (sym e) (cause, (known, tells))

  commit_work-Explained : (x : World F) → Explained (FailsToCommit x) (commit_work env ctx x)
  unfolding commit_work
  commit_work-Explained x = elim (Option-cases (ctx.err x)) [
    | inr (err, done) ↦
        rw done (roll_back_for-Explained (FailsToCommit x) err x (done_behind_fn done refl))
    | inl in_time ↦ elim (Option-cases (env.commit x)) [
      | inr (err, refused) ↦
          rw (in_time, refused)
            (roll_back_for-Explained (FailsToCommit x) err (Event.committed (some err) ∷ x)
              (commit_refused in_time refused refl))
      | inl accepted ↦ elim (Option-cases (ctx.err (Event.committed none ∷ x))) [
        | inr (err, late) ↦
            rw (in_time, accepted, late)
              (roll_back_for-Explained (FailsToCommit x) err (Event.committed none ∷ x)
                (done_behind_commit in_time accepted late refl))
        | inl still ↦ rw (in_time, accepted, still) tt
      ]
    ]
  ]

  after_fn-Explained :
      (fn : Context F → Fallible F) (w : World F) (reply : Outcome F (Option (GoError F)) × World F)
      → fn (within ctx) (Event.began none ∷ w) ≡ reply
      → env.begin_tx w ≡ none
      → ctx.err (Event.began none ∷ w) ≡ none
      → Explained (Fails fn w) (after_fn env ctx reply)
  unfolding after_fn repanic
  after_fn-Explained fn w (returned none, x) e begun ready =
      widen (commit_work env ctx x) (commit_work-Explained x)
    where
      widen :
          (y : Outcome F (Option (GoError F)) × World F)
          → Explained (FailsToCommit x) y
          → Explained (Fails fn w) y
      widen (returned none, w') _ = tt
      widen (returned (some err), w') (cause, (known, tells)) = (
        cause,
        (
          fails_to_commit begun ready (ap (λ r. r.0) e)
              (subst (λ z. FailsToCommit z cause w') (sym (ap (λ r. r.1) e)) known),
          tells,
        ),
      )
      widen (panicked v, w') _ = tt
      widen (exited code, w') _ = tt
  after_fn-Explained fn w (returned (some err), x) e begun ready =
      roll_back_for-Explained (Fails fn w) err x
        (fn_failed begun ready (ap (λ r. r.0) e) (ap (λ r. rolled env r.1) (sym e)))
  after_fn-Explained fn w (panicked v, x) e begun ready = tt
  after_fn-Explained fn w (exited code, x) e begun ready = tt

  outermost-Explained :
      (fn : Context F → Fallible F) (w : World F) → Explained (Fails fn w) (outermost env ctx fn w)
  unfolding outermost in_transaction failed
  outermost-Explained fn w = elim (Option-cases (env.begin_tx w)) [
    | inr (err, refused) ↦ rw refused (err, (begin_refused refused refl, wrapped-Tells err))
    | inl begun ↦ elim (Option-cases (ctx.err (Event.began none ∷ w))) [
      | inr (err, done) ↦
          rw (begun, done) (err, (done_behind_begin begun done refl, wrapped-Tells err))
      | inl ready ↦
          rw (begun, ready)
            (after_fn-Explained fn w (fn (within ctx) (Event.began none ∷ w)) refl begun ready)
    ]
  ]

  -- An outermost Transaction that returns an error: the error is identified as
  -- ErrDatabaseTransactionFailed and reads "database transaction failed: " before the text of its
  -- cause, whatever a rollback replies. The cause is the error of the begin, of the function or of the
  -- commit, or that of the context right behind one of the three, each only where all before went
  -- well; and a rollback is the last call, unless the begin was refused or the context was done right
  -- behind it, where no call follows the begin.
  pub transaction-Explains :
      (fn : Context F → Fallible F) (w w' : World F) (err : GoError F)
      → ctx.transaction ≡ false
      → transaction env ctx fn w ≡ (returned (some err), w')
      → (cause : GoError F) × (Fails fn w cause w' × Tells cause err)
  unfolding transaction
  transaction-Explains fn w w' err out h =
      let course =
        ap (λ b. (if b then nested env ctx fn else outermost env ctx fn) w) (sym out) ∙ h in
      subst (Explained (Fails fn w)) course (outermost-Explained fn w)

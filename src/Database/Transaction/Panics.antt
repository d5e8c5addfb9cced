-- ===== src/Database/Transaction/Panics.antt =====
-- How the end of its function ends `Transaction` of database.go.
use kit_legacy.Base.{◌≡◌, refl, ap, false, Option, none, some, Option-cases, inl, inr, ◌∷◌}
use kit_legacy.Errors.Value.{GoError, foreign, ErrorsLib, error_text}
use kit_legacy.World.Event.{Any, an_error, Event, World}
use kit_legacy.World.Action.{Outcome, returned, panicked, exited, Fallible}
use kit_legacy.World.Context.{Context}
use kit_legacy.Database.Store.{PgxEnv}
use kit_legacy.Database.Transaction.{
  transaction, outermost, in_transaction, after_fn, commit_work, roll_back_for, repanic, within,
  repanic_value,
}
use kit_legacy.Database.Transaction.Errors.{rolled}

module _ {F : Type 0} ⦃lib : ErrorsLib F⦄ (env : PgxEnv F) where
  -- What a panic goes on with: an error of the same text, or, for a value that is no error, the error of
  -- the failed conversion.
  abbrev pub Rethrows : Any F → Any F → Type 0
  Rethrows (an_error err) v' =
      (err' : GoError F) × (v' ≡ an_error err') × (error_text err' ≡ error_text err)
  Rethrows v v' = v' ≡ an_error (foreign (env.conversion_error v))

  -- How the transaction ends, by how its function has ended.
  abbrev pub Ends :
      Outcome F (Option (GoError F)) × World F → Outcome F (Option (GoError F)) × World F → Type 0
  Ends (returned err, x) y = (err' : Option (GoError F)) × (y.0 ≡ returned err')
  Ends (panicked v, x) y = (v' : Any F) × (y ≡ (panicked v', rolled env x)) × Rethrows v v'
  Ends (exited code, x) y = y ≡ (exited code, x)

module _ {F : Type 0} ⦃lib : ErrorsLib F⦄ (env : PgxEnv F) (ctx : Context F) where
  repanic_value-Rethrows :
      (v : Any F) (err_r : Option (GoError F)) → Rethrows env v (repanic_value env v err_r)
  unfolding repanic_value
  repanic_value-Rethrows (an_error err) err_r =
      let (both, e, text) = lib.combine-some err err_r in
      (
        both,
        ap (λ combined. elim combined as (λ _. Any F) [ some all ↦ an_error all | none ↦ Any.nil ])
            e,
        text,
      )
  repanic_value-Rethrows Any.nil err_r = refl
  repanic_value-Rethrows (Any.a_string s) err_r = refl
  repanic_value-Rethrows (Any.other s) err_r = refl

  roll_back_for-returns :
      (err : GoError F) (x : World F)
      → (err' : Option (GoError F)) × ((roll_back_for env err x).0 ≡ returned err')
  unfolding roll_back_for
  roll_back_for-returns err x = (_, refl)

  commit_work-returns :
      (x : World F) → (err : Option (GoError F)) × ((commit_work env ctx x).0 ≡ returned err)
  unfolding commit_work
  commit_work-returns x = elim (Option-cases (ctx.err x)) [
    | inr (err, done) ↦ rw done (roll_back_for-returns err x)
    | inl in_time ↦ elim (Option-cases (env.commit x)) [
      | inr (err, refused) ↦
          rw (in_time, refused) (roll_back_for-returns err (Event.committed (some err) ∷ x))
      | inl accepted ↦ elim (Option-cases (ctx.err (Event.committed none ∷ x))) [
        | inr (err, late) ↦
            rw (in_time, accepted, late) (roll_back_for-returns err (Event.committed none ∷ x))
        | inl still ↦ rw (in_time, accepted, still) (none, refl)
      ]
    ]
  ]

  after_fn-Ends :
      (reply : Outcome F (Option (GoError F)) × World F) → Ends env reply (after_fn env ctx reply)
  unfolding after_fn repanic
  after_fn-Ends (returned none, x) = commit_work-returns x
  after_fn-Ends (returned (some err), x) = roll_back_for-returns err x
  after_fn-Ends (panicked v, x) = (_, refl, repanic_value-Rethrows v (env.rollback x))
  after_fn-Ends (exited code, x) = refl

  -- A transaction that has begun in time panics exactly when its function does, ends the process
  -- exactly when it does, and otherwise returns. A panic has a rollback asked for as the last call,
  -- and goes on with an error of the same text, whatever the rollback replies; where the value is no
  -- error, it is lost, and the panic goes on with the error of the failed conversion. Nothing follows
  -- the end of the process.
  pub transaction-Ends :
      (fn : Context F → Fallible F) (w : World F)
      → ctx.transaction ≡ false
      → env.begin_tx w ≡ none
      → ctx.err (Event.began none ∷ w) ≡ none
      → Ends env (fn (within ctx) (Event.began none ∷ w)) (transaction env ctx fn w)
  unfolding transaction outermost in_transaction
  transaction-Ends fn w out begun ready =
      rw (out, begun, ready) (after_fn-Ends (fn (within ctx) (Event.began none ∷ w)))

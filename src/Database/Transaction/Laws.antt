-- ===== src/Database/Transaction/Laws.antt =====
-- When `Transaction` commits, and what it does inside another.
use kit_legacy.Base.{◌≡◌, refl, ◌↔◌, true, false, Option, none, some, ◌∷◌, arith}
use kit_legacy.Errors.Value.{GoError, ErrorsLib}
use kit_legacy.World.Event.{Event, World}
use kit_legacy.World.Action.{Outcome, returned, panicked, exited, Fallible}
use kit_legacy.World.Context.{Context}
use kit_legacy.Database.Store.{PgxEnv}
use kit_legacy.Database.Transaction.{
  transaction, outermost, nested, in_transaction, after_fn, commit_work, roll_back_for, repanic,
  within, failed,
}

module _ {F : Type 0} ⦃lib : ErrorsLib F⦄ (env : PgxEnv F) where
  -- The whole course of a transaction that ends well, from the trace `w`.
  pub record Commits (ctx : Context F) (fn : Context F → Fallible F) (w w' : World F) : Type 0 where
    pub begun : env.begin_tx w ≡ none
    pub ready : ctx.err (Event.began none ∷ w) ≡ none
    pub succeeded : (fn (within ctx) (Event.began none ∷ w)).0 ≡ returned none
    pub in_time : ctx.err (fn (within ctx) (Event.began none ∷ w)).1 ≡ none
    pub trace : w' ≡ Event.committed none ∷ (fn (within ctx) (Event.began none ∷ w)).1
    pub accepted : env.commit (fn (within ctx) (Event.began none ∷ w)).1 ≡ none
    pub still : ctx.err w' ≡ none

  commit_work-none :
      (ctx : Context F) (w : World F) {w' : World F}
      → commit_work env ctx w ≡ (returned none, w')
      → (ctx.err w ≡ none)
        × (env.commit w ≡ none)
        × (w' ≡ Event.committed none ∷ w)
        × (ctx.err w' ≡ none)
  unfolding commit_work roll_back_for failed
  commit_work-none ctx w h = ground arith

  after_fn-none :
      (ctx : Context F) (reply : Outcome F (Option (GoError F)) × World F) {w' : World F}
      → after_fn env ctx reply ≡ (returned none, w')
      → (reply.0 ≡ returned none) × (commit_work env ctx reply.1 ≡ (returned none, w'))
  unfolding after_fn roll_back_for failed repanic
  after_fn-none ctx (returned none, w) h = (refl, h)
  after_fn-none ctx (returned (some err), w) h = cc
  after_fn-none ctx (panicked v, w) h = cc
  after_fn-none ctx (exited code, w) h = cc

  outermost-none :
      (ctx : Context F) (fn : Context F → Fallible F) (w : World F) {w' : World F}
      → outermost env ctx fn w ≡ (returned none, w')
      → (env.begin_tx w ≡ none)
        × (ctx.err (Event.began none ∷ w) ≡ none)
        × (in_transaction env ctx fn (Event.began none ∷ w) ≡ (returned none, w'))
  unfolding outermost failed
  outermost-none ctx fn w h = ground arith

  -- An outermost `Transaction` that returns nil began a transaction, ran the function in it without an
  -- error, and committed: the commit is the last call that it made, and the context was not done.
  pub transaction-Commits :
      (ctx : Context F) (fn : Context F → Fallible F) (w w' : World F)
      → ctx.transaction ≡ false
      → transaction env ctx fn w ≡ (returned none, w')
      → Commits ctx fn w w'
  unfolding transaction in_transaction
  transaction-Commits ctx fn w w' out h =
      let (begun, ready, run) = outermost-none ctx fn w {w' = w'} (ground arith) in
      let (succeeded, work) =
        after_fn-none ctx (fn (within ctx) (Event.began none ∷ w)) {w' = w'} run in
      let (in_time, accepted, trace, still) = commit_work-none ctx _ {w' = w'} work in
      record {
        begun = begun;
        ready = ready;
        succeeded = succeeded;
        in_time = in_time;
        trace = trace;
        accepted = accepted;
        still = still;
      }

  -- A `Transaction` inside another neither begins, commits nor rolls back: all its calls are those of the
  -- function, and its result is nil exactly when the function's is.
  pub transaction_nested :
      (ctx : Context F) (fn : Context F → Fallible F) (w : World F)
      → ctx.transaction ≡ true
      → ((transaction env ctx fn w).1 ≡ (fn ctx w).1)
        × (((transaction env ctx fn w).0 ≡ returned none) ↔ ((fn ctx w).0 ≡ returned none))
  unfolding transaction nested
  transaction_nested ctx fn w inside = ground arith

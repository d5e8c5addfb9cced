-- ===== src/Database/Atomic.antt =====
-- `Transaction` of database.go against the abstract store: all of its statements are kept, or none.
use kit_legacy.Base.{
  String, ◌≡◌, refl, sym, subst, ap, ◌⊎◌, inl, inr, false, Option, none, some, Option-cases, List,
  [], ◌∷◌, ◌++◌, if◌then◌else◌,
}
use kit_legacy.Errors.Value.{GoError, ErrorsLib}
use kit_legacy.World.Event.{Event, World}
use kit_legacy.World.Action.{Outcome, returned, panicked, exited, Fallible}
use kit_legacy.World.Context.{Context}
use kit_legacy.Database.Store.{PgxEnv}
use kit_legacy.Database.Transaction.{
  transaction, nested, outermost, in_transaction, after_fn, commit_work, roll_back_for, repanic,
  within, failed,
}
use kit_legacy.Database.Effects.{Store, apply, replay, keep, Runs, Inside, Whatever}

module _ {F : Type 0} ⦃lib : ErrorsLib F⦄ (env : PgxEnv F) (ctx : Context F) where
  -- The commit was accepted on the trace `w`, and the context is done behind it.
  abbrev pub DoneLate : World F → Type 0
  DoneLate w =
      (env.commit w ≡ none) × ((err : GoError F) × (ctx.err (Event.committed none ∷ w) ≡ some err))

  -- The store behind a transaction that ran its function, by its outcome: `before` are the statements
  -- kept before it, `sqls` those that ran in it, up to the trace `w`.
  abbrev pub Closes :
      List String → List String → World F → Outcome F (Option (GoError F)) → Store → Type 0
  Closes before sqls w (returned none) s = s ≡ record { saved = sqls ++ before; pending = none }
  Closes before sqls w (returned (some err)) s =
      (s ≡ record { saved = before; pending = none })
      ⊎ ((s ≡ record { saved = sqls ++ before; pending = none }) × DoneLate w)
  Closes before sqls w (panicked v) s = s ≡ record { saved = before; pending = none }
  Closes before sqls w (exited code) s = s ≡ record { saved = before; pending = some sqls }

  -- The store behind one that did not, from the trace `w` on: either it could not begin, and nothing
  -- has changed, or it has begun with the context done right behind, and is left open.
  abbrev pub Skips : World F → Store → Type 0
  Skips w s =
      (((err : GoError F) × (env.begin_tx w ≡ some err)) × (s ≡ replay w))
      ⊎ ((env.begin_tx w ≡ none)
          × ((err : GoError F) × (ctx.err (Event.began none ∷ w) ≡ some err))
          × (s ≡ record { saved = (replay w).saved; pending = some [] }))

  abbrev pub Leaves :
      World F → List String → World F → Outcome F (Option (GoError F)) → Store → Type 0
  Leaves w sqls w' outcome s =
      Closes (replay w).saved sqls w' outcome s
      ⊎ (((err : GoError F) × (outcome ≡ returned (some err))) × Skips w s)

  kept : Store → Store
  kept s = record { saved = keep s.pending s.saved; pending = none }

  rolled : Store → Store
  rolled s = record s { pending = none }

  commit_work-Closes :
      (before sqls : List String) (w : World F)
      → replay w ≡ record { saved = before; pending = some sqls }
      → Closes before sqls w (commit_work env ctx w).0 (replay (commit_work env ctx w).1)
  unfolding commit_work roll_back_for failed replay apply kept rolled
  commit_work-Closes before sqls w e = elim (Option-cases (ctx.err w)) [
    | inr (err, late) ↦ rw late (inl (ap rolled e))
    | inl in_time ↦ elim (Option-cases (env.commit w)) [
      | inr (err, refused) ↦ rw (in_time, refused) (inl (ap rolled e))
      | inl accepted ↦ elim (Option-cases (ctx.err (Event.committed none ∷ w))) [
        | inr (err, late) ↦ rw (in_time, accepted, late) (inr (ap kept e, (accepted, (err, late))))
        | inl still ↦ rw (in_time, accepted, still) (ap kept e)
      ]
    ]
  ]

  after_fn-Closes :
      (before sqls : List String) (reply : Outcome F (Option (GoError F)) × World F)
      → replay reply.1 ≡ record { saved = before; pending = some sqls }
      → Closes before sqls reply.1 (after_fn env ctx reply).0 (replay (after_fn env ctx reply).1)
  unfolding after_fn roll_back_for failed repanic replay apply rolled
  after_fn-Closes before sqls (returned none, w) e = commit_work-Closes before sqls w e
  after_fn-Closes before sqls (returned (some err), w) e = inl (ap rolled e)
  after_fn-Closes before sqls (panicked v, w) e = ap rolled e
  after_fn-Closes before sqls (exited code, w) e = e

  outermost-Leaves :
      (fn : Context F → Fallible F) (sqls : List String) (w : World F)
      → replay (fn (within ctx) (Event.began none ∷ w)).1
        ≡ record { saved = (replay w).saved; pending = some sqls }
      → let y = outermost env ctx fn w in
        Leaves w sqls (fn (within ctx) (Event.began none ∷ w)).1 y.0 (replay y.1)
  unfolding outermost in_transaction failed replay apply
  outermost-Leaves fn sqls w e = elim (Option-cases (env.begin_tx w)) [
    | inr (err, refused) ↦ rw refused (inr ((_, refl), inl ((err, refl), refl)))
    | inl begun ↦ elim (Option-cases (ctx.err (Event.began none ∷ w))) [
      | inr (err, done) ↦ rw (begun, done) (inr ((_, refl), inr (refl, (err, refl), refl)))
      | inl ready ↦
          rw (begun, ready)
            (inl (after_fn-Closes (replay w).saved sqls (fn (within ctx) (Event.began none ∷ w)) e))
    ]
  ]

  -- An outermost Transaction around a function that only runs statements in it: where it returns
  -- nil all of these statements are kept; where the function panics none is, and the transaction is
  -- closed; where it returns an error either none is, and the transaction is closed or was not
  -- begun, or else all are, as the context was done behind an accepted commit, or none has run and
  -- the transaction is left open, as the context was done right behind its begin; and the end of
  -- the process leaves the statements pending.
  pub transaction-Atomic :
      (fn : Context F → Fallible F) (w : World F)
      → ctx.transaction ≡ false
      → Inside Whatever (fn (within ctx))
      → let y = transaction env ctx fn w in
        let x = fn (within ctx) (Event.began none ∷ w) in
        (sqls : List String) × (replay x.1
          ≡ record { saved = (replay w).saved; pending = some sqls })
        × Leaves w sqls x.1 y.0 (replay y.1)
  unfolding transaction Inside Runs replay apply
  transaction-Atomic fn w out inside =
      let x = fn (within ctx) (Event.began none ∷ w) in
      let ((sqls, e), ok) = inside (Event.began none ∷ w) in
      (
        sqls ++ [],
        e,
        subst
            (λ b.
              let y = (if b then nested env ctx fn else outermost env ctx fn) w in
              Leaves w (sqls ++ []) x.1 y.0 (replay y.1))
            (sym out) (outermost-Leaves fn (sqls ++ []) w e),
      )

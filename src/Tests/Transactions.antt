-- ===== src/Tests/Transactions.antt =====
-- Transactions that fail, and one that panics.
use kit_legacy.Base.{String, refl, Option, none, some, [], ◌∷◌}
use kit_legacy.Errors.Value.{GoError, foreign}
use kit_legacy.Errors.Error.{to_error, wrap}
use kit_legacy.Errors.Builtin.{err_database_transaction_failed}
use kit_legacy.World.Event.{an_error, Event, World}
use kit_legacy.World.Action.{returned, panicked, Fallible}
use kit_legacy.World.Context.{Context}
use kit_legacy.Database.Transaction.{
  transaction, outermost, in_transaction, after_fn, roll_back_for, failed,
}
use kit_legacy.Database.Transaction.Errors.{
  Tells, Fails, fails_to_commit, done_behind_commit, transaction-Explains,
}
use kit_legacy.Database.Transaction.Failing.{FailsWith, transaction-Fails}
use kit_legacy.Database.Transaction.Panics.{Ends, transaction-Ends}
use kit_legacy.Tests.Libs.{plain_errors}
use kit_legacy.Tests.Utils.{background}
use kit_legacy.Tests.Store.{pgx, writes, written}

abbrev refused : GoError String
refused = foreign "refused"

abbrev refuses : Context String → Fallible String
refuses ctx w = (returned (some refused), w)

abbrev around_refused : GoError String
around_refused = to_error (wrap err_database_transaction_failed (some refused))

transaction-Explains_example :
    (cause : GoError String) × (Fails pgx background refuses [] cause
        (Event.rolled_back none ∷ Event.began none ∷ [])
      × Tells cause around_refused)
transaction-Explains_example =
    transaction-Explains pgx background refuses [] (Event.rolled_back none ∷ Event.began none ∷ [])
      around_refused refl
      (unfold transaction outermost in_transaction after_fn roll_back_for failed in refl)

-- A context that is done once a transaction is committed.
abbrev done_behind : World String → Option (GoError String)
done_behind (Event.committed _ ∷ _) = some (foreign "context canceled")
done_behind _ = none

abbrev late : Context String
late = record background { err = done_behind }

abbrev late_trace : World String
late_trace = Event.rolled_back none ∷ Event.committed none ∷ written

transaction-Fails_example :
    FailsWith (foreign "context canceled") late_trace (transaction pgx late writes [])
transaction-Fails_example =
    transaction-Fails pgx late writes [] late_trace (foreign "context canceled") refl
      (fails_to_commit refl refl refl (done_behind_commit refl refl refl refl))

abbrev breaks : Context String → Fallible String
breaks ctx w = (panicked (an_error (foreign "broken")), w)

transaction-Ends_example :
    Ends pgx (breaks background (Event.began none ∷ [])) (transaction pgx background breaks [])
transaction-Ends_example = transaction-Ends pgx background breaks [] refl refl refl

-- ===== src/Tests/Atomic.antt =====
-- A transaction around statements, one of them in a nested transaction.
use kit_legacy.Base.{String, ◌≡◌, refl, none, some, List, [], ◌∷◌}
use kit_legacy.World.Event.{Event}
use kit_legacy.World.Action.{Fallible, ◌>>◌}
use kit_legacy.World.Context.{Context}
use kit_legacy.Observe.Observer.{set_trace, get_trace}
use kit_legacy.Observe.Observer.Traces.{
  trace_query, start_gilk, start_span, finish_gilk, finish_span,
}
use kit_legacy.Database.Store.{
  query, exec, query_rows, scan_rows, affected, close_rows, exec_command,
}
use kit_legacy.Database.Transaction.{
  transaction, within, outermost, in_transaction, after_fn, nested, commit_work,
}
use kit_legacy.Database.Effects.{Inside, Whatever, replay, apply}
use kit_legacy.Database.Statements.{then-Inside, query-Inside, statements-Inside}
use kit_legacy.Database.Atomic.{Leaves, transaction-Atomic}
use kit_legacy.Tests.Libs.{plain_errors}
use kit_legacy.Tests.Utils.{background}
use kit_legacy.Tests.Store.{pgx}
use kit_legacy.Tests.Construct.{traces}
use kit_legacy.Tests.Queries.{pg, database}

-- A function that reads.
abbrev reads : Context String → Fallible String
reads ctx = query database pg pgx traces ctx "main.list" "select 1"

-- A function that writes, and reads in a transaction of its own.
abbrev writes : Context String → Fallible String
writes ctx = exec database pg pgx traces ctx "main.add" "insert 1" >> transaction pgx ctx reads

reads-Inside : Inside Whatever (reads (within background))
reads-Inside = query-Inside database pg pgx traces (within background) "main.list" "select 1" refl

writes-Inside : Inside Whatever (writes (within background))
writes-Inside =
    let (_, exec_inside, nested_inside) =
      statements-Inside database pg pgx traces (within background) "main.add" "insert 1" reads refl
        reads-Inside in
    then-Inside Whatever (exec database pg pgx traces (within background) "main.add" "insert 1")
      (λ _. transaction pgx (within background) reads) exec_inside (λ _. nested_inside)

statements-Inside_example :
    Inside Whatever (query database pg pgx traces (within background) "main.add" "insert 1")
    × Inside Whatever (exec database pg pgx traces (within background) "main.add" "insert 1")
    × Inside Whatever (transaction pgx (within background) reads)
statements-Inside_example =
    statements-Inside database pg pgx traces (within background) "main.add" "insert 1" reads refl
      reads-Inside

transaction-Atomic_example :
    let y = transaction pgx background writes [] in
    let x = writes (within background) (Event.began none ∷ []) in
    (sqls : List String) × (replay x.1
      ≡ record { saved = (replay {F = String} []).saved; pending = some sqls })
    × Leaves pgx background [] sqls x.1 y.0 (replay y.1)
unfolding replay
transaction-Atomic_example = transaction-Atomic pgx background writes [] refl writes-Inside

-- Both statements are kept.
kept_test : (replay (transaction pgx background writes []).1).saved ≡ "select 1" ∷ "insert 1" ∷ []
unfolding replay apply transaction outermost in_transaction after_fn exec trace_query start_gilk
    start_span exec_command set_trace finish_gilk finish_span nested query query_rows scan_rows
    affected close_rows commit_work get_trace
kept_test = refl

-- ===== src/Database/Statements.antt =====
-- `Query`, `Exec` and a nested `Transaction` of database.go, called with the context of a transaction, do
-- nothing but run statements in it.
use kit_legacy.Base.{
  ℤ, String, same_text, ◌≡◌, refl, sym, subst, ◌∙◌, if◌then◌else◌, Bool, true, false, Option, none,
  some, is_some,
}
use kit_legacy.Errors.Value.{GoError, ErrorsLib}
use kit_legacy.Errors.Error.{to_error, wrap_as}
use kit_legacy.Errors.Builtin.{err_database_transaction_failed}
use kit_legacy.World.Event.{Event}
use kit_legacy.World.Action.{Action, Fallible, pure, emit, ask, look, unless_err, ◌>>=◌, ◌>>◌}
use kit_legacy.World.Context.{Context}
use kit_legacy.Observe.Observer.{Observer, set_trace, get_trace}
use kit_legacy.Observe.Observer.Traces.{
  Traced, TraceEnv, trace_query, start_gilk, start_span, finish_gilk, finish_span,
}
use kit_legacy.Database.Classify.{PgLib}
use kit_legacy.Database.Store.{
  Database, PgxEnv, WithError, db_error, scan_rows, close_rows, query_rows, query, affected,
  exec_command, exec,
}
use kit_legacy.Database.Transaction.{transaction, nested, outermost}
use kit_legacy.Database.Effects.{
  apply, Inside, Whatever, bind-Inside, pure-Inside, look-Inside, emit-Inside, ask-Inside,
  when-Inside, query-Runs, exec-Runs,
}

module _ {F : Type 0} where
  -- One action behind another, whatever the first returns.
  pub then-Inside :
      {A B : Type 0} (Q : B → Type 0) (m : Action F A) (k : A → Action F B)
      → Inside Whatever m
      → ((a : A) → Inside Q (k a))
      → Inside Q (m >>= k)
  then-Inside Q m k first rest = bind-Inside Whatever Q m k first (λ a p. rest a)

  option-Inside :
      {A : Type 0} (err : Option (GoError F)) (f : GoError F → Action F A) (rest : Action F A)
      → ((e : GoError F) → Inside Whatever (f e))
      → Inside Whatever rest
      → Inside {A = A} Whatever (elim err as (λ x. Action F A) [ some e ↦ f e | none ↦ rest ])
  option-Inside (some e) f rest h k = h e
  option-Inside none f rest h k = k

  unless_err-Inside :
      (err : Option (GoError F)) (f : GoError F → Option (GoError F)) (rest : Fallible F)
      → Inside Whatever rest
      → Inside Whatever (unless_err err f rest)
  unless_err-Inside none f rest h = h
  unless_err-Inside (some err) f rest h = pure-Inside F Whatever (f err) tt

finish-Inside :
    (F : Type 0) (observer : Observer)
    → Inside {F = F} Whatever (finish_gilk observer >> finish_span observer)
unfolding finish_gilk finish_span apply
finish-Inside F observer =
    then-Inside Whatever (finish_gilk observer) (λ _. finish_span observer)
      (when-Inside (is_some observer.config.gilk_config) (emit Event.gilk_ended)
        (emit-Inside Event.gilk_ended (λ s. refl)))
      (λ _.
        when-Inside (is_some observer.config.sentry_config) (emit Event.span_finished)
          (emit-Inside Event.span_finished (λ s. refl)))

module _ {F : Type 0} where
  -- The context that a trace returns is in the transaction that the given one is in.
  abbrev Within : Context F → Traced F → Type 0
  Within ctx traced = (traced.0.transaction ≡ ctx.transaction) × Inside Whatever traced.1

  start_span-Inside :
      (observer : Observer) (tracing : TraceEnv F) (trace_id transaction_name name : String)
      → Inside Whatever (start_span observer tracing trace_id transaction_name name)
  unfolding start_span apply
  start_span-Inside observer tracing trace_id transaction_name name =
      when-Inside (is_some observer.config.sentry_config) _ (
        then-Inside Whatever (emit (Event.tagged trace_id)) _
          (emit-Inside (Event.tagged trace_id) (λ s. refl))
          λ _.
            then-Inside Whatever (look tracing.transaction) _ (look-Inside tracing.transaction)
              λ current.
                then-Inside Whatever _ _
                  (when-Inside (same_text current "") _
                    (emit-Inside (Event.transaction_set transaction_name) (λ s. refl)))
                  (λ _. emit-Inside (Event.span_started name) (λ s. refl)))

  trace_query-Inside :
      (observer : Observer) (tracing : TraceEnv F) (ctx : Context F) (caller sql : String)
      → Inside (Within ctx) (trace_query observer tracing ctx caller sql)
  unfolding trace_query start_gilk start_span apply set_trace
  trace_query-Inside observer tracing ctx caller sql =
      then-Inside (Within ctx) (look tracing.fresh_id) _ (look-Inside tracing.fresh_id) λ fresh.
        then-Inside (Within ctx) (start_gilk observer tracing sql) _
          (when-Inside (is_some observer.config.gilk_config) _
            (emit-Inside (Event.gilk_started sql) (λ s. refl)))
          λ _.
            then-Inside (Within ctx)
              (start_span observer tracing (get_trace ctx fresh) caller caller) _
              (start_span-Inside observer tracing (get_trace ctx fresh) caller caller)
              λ _.
                pure-Inside F (Within ctx)
                  (
                    set_trace ctx (get_trace ctx fresh),
                    (finish_gilk observer >> finish_span observer),
                  )
                  (refl, finish-Inside F observer)

module _ {F : Type 0} ⦃lib : ErrorsLib F⦄ (self : Database) (pg : PgLib) (env : PgxEnv F)
    (tracing : TraceEnv F) where
  scan_rows-Inside : (ctx : Context F) → Inside Whatever (scan_rows self pg env tracing ctx)
  unfolding scan_rows
  scan_rows-Inside ctx = then-Inside Whatever (look ctx.err) _ (look-Inside ctx.err) λ err.
      unless_err-Inside err (db_error pg) _ (
        then-Inside Whatever (look env.scan) _ (look-Inside env.scan)
          λ scanned. unless_err-Inside scanned (db_error pg) _ (pure-Inside F Whatever none tt))

  close_rows-Inside : (rows : Bool) → Inside Whatever (close_rows self pg env tracing rows)
  unfolding close_rows apply
  close_rows-Inside true = emit-Inside Event.rows_closed (λ s. refl)
  close_rows-Inside false = pure-Inside F Whatever tt tt

  query_rows-Inside :
      (ctx : Context F) (sql : String)
      → ctx.transaction ≡ true
      → Inside Whatever (query_rows self pg env tracing ctx sql)
  unfolding query_rows
  query_rows-Inside ctx sql inside =
      then-Inside Whatever (look (env.has_rows ctx.transaction sql)) _
        (look-Inside (env.has_rows ctx.transaction sql))
        λ rows.
          then-Inside Whatever
            (ask (env.query ctx.transaction sql) (Event.queried ctx.transaction sql)) _
            (ask-Inside (env.query ctx.transaction sql) (Event.queried ctx.transaction sql)
              (λ w. rw inside (query-Runs sql (env.query true sql w) w)))
            λ err.
              then-Inside Whatever
                (unless_err err (db_error pg) (scan_rows self pg env tracing ctx)) _
                (unless_err-Inside err (db_error pg) _ (scan_rows-Inside ctx))
                λ result.
                  then-Inside Whatever (close_rows self pg env tracing rows) _
                    (close_rows-Inside rows) λ _. pure-Inside F Whatever result tt

  affected-Inside : (ctx : Context F) → Inside Whatever (affected self pg env tracing ctx)
  unfolding affected
  affected-Inside ctx = then-Inside Whatever (look ctx.err) _ (look-Inside ctx.err) λ err.
      option-Inside err (λ e. pure {A = WithError F ℤ} (ℤ.pos 0, db_error pg e))
        (look {A = WithError F ℤ} (λ w. (env.rows_affected w, none)))
        (λ e. pure-Inside F Whatever (ℤ.pos 0, db_error pg e) tt)
        (look-Inside (λ w. (env.rows_affected w, none)))

  exec_command-Inside :
      (ctx : Context F) (sql : String)
      → ctx.transaction ≡ true
      → Inside Whatever (exec_command self pg env tracing ctx sql)
  unfolding exec_command
  exec_command-Inside ctx sql inside =
      then-Inside Whatever
        (ask (env.execute ctx.transaction sql) (Event.executed ctx.transaction sql)) _
        (ask-Inside (env.execute ctx.transaction sql) (Event.executed ctx.transaction sql)
          (λ w. rw inside (exec-Runs sql (env.execute true sql w) w)))
        λ err.
          option-Inside err (λ e. pure {A = WithError F ℤ} (ℤ.pos 0, db_error pg e))
            (affected self pg env tracing ctx)
            (λ e. pure-Inside F Whatever (ℤ.pos 0, db_error pg e) tt) (affected-Inside ctx)

  -- The close of the statement, behind the end of the trace.
  closing-Inside :
      {A : Type 0} (at_end : Action F (Unit {0})) (result : A)
      → Inside Whatever at_end
      → Inside Whatever (at_end >> (emit Event.statement_closed >> pure result))
  unfolding apply
  closing-Inside at_end result ends = then-Inside Whatever at_end _ ends λ _.
      then-Inside Whatever (emit Event.statement_closed) _
        (emit-Inside Event.statement_closed (λ s. refl)) λ _. pure-Inside F Whatever result tt

  pub query-Inside :
      (ctx : Context F) (caller sql : String)
      → ctx.transaction ≡ true
      → Inside Whatever (query self pg env tracing ctx caller sql)
  unfolding query
  query-Inside ctx caller sql inside =
      bind-Inside (Within ctx) Whatever (trace_query self.observer tracing ctx caller sql) _
        (trace_query-Inside self.observer tracing ctx caller sql)
        λ traced (same, ends).
          then-Inside Whatever (query_rows self pg env tracing traced.0 sql) _
            (query_rows-Inside traced.0 sql (same ∙ inside))
            λ result. closing-Inside traced.1 result ends

  pub exec-Inside :
      (ctx : Context F) (caller sql : String)
      → ctx.transaction ≡ true
      → Inside Whatever (exec self pg env tracing ctx caller sql)
  unfolding exec
  exec-Inside ctx caller sql inside =
      bind-Inside (Within ctx) Whatever (trace_query self.observer tracing ctx caller sql) _
        (trace_query-Inside self.observer tracing ctx caller sql)
        λ traced (same, ends).
          then-Inside Whatever (exec_command self pg env tracing traced.0 sql) _
            (exec_command-Inside traced.0 sql (same ∙ inside))
            λ result. closing-Inside traced.1 result ends

  nested-Inside :
      (ctx : Context F) (fn : Context F → Fallible F)
      → ctx.transaction ≡ true
      → Inside Whatever (fn ctx)
      → Inside Whatever (transaction env ctx fn)
  unfolding transaction nested
  nested-Inside ctx fn inside h =
      subst (λ b. Inside Whatever (if b then nested env ctx fn else outermost env ctx fn))
        (sym inside)
        (then-Inside Whatever (fn ctx) _ h λ err.
          unless_err-Inside err
            (λ e. some (to_error (wrap_as err_database_transaction_failed (some e)))) (pure none)
            (pure-Inside F Whatever none tt))

  -- With the context of a transaction, Query, Exec, and a Transaction around a function that does no more,
  -- only run statements in that transaction.
  pub statements-Inside :
      (ctx : Context F) (caller sql : String) (fn : Context F → Fallible F)
      → ctx.transaction ≡ true
      → Inside Whatever (fn ctx)
      → Inside Whatever (query self pg env tracing ctx caller sql)
        × Inside Whatever (exec self pg env tracing ctx caller sql)
        × Inside Whatever (transaction env ctx fn)
  statements-Inside ctx caller sql fn inside h = (
    query-Inside ctx caller sql inside,
    exec-Inside ctx caller sql inside,
    nested-Inside ctx fn inside h,
  )

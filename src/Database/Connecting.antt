-- ===== src/Database/Connecting.antt =====
-- What `NewDatabase` of database.go leaves behind when its pings fail.
use kit_legacy.Base.{
  ℕ, zero, suc, ◌+◌, ℤ, pos, String, ◌&◌, show, show_ℤ, ◌≡◌, inl, inr, Option, none, some, List, [],
  ◌∷◌, arith, ◌∙◌, ap,
}
use kit_legacy.Errors.Value.{GoError, ErrorsLib}
use kit_legacy.Errors.Error.{to_error, wrap_as}
use kit_legacy.Errors.Builtin.{err_database_generic, err_database_timed_out}
use kit_legacy.World.Event.{Event, World}
use kit_legacy.World.Action.{Outcome, returned, Fallible, bind-returned}
use kit_legacy.World.Context.{Context}
use kit_legacy.Utils.Deadline.{DeadlineLib}
use kit_legacy.Utils.Deadline.Laws.{Settles, bounded_lem}
use kit_legacy.Utils.Retry.{RetrierLib, exponential_retry}
use kit_legacy.Utils.Retry.Laws.{tries, again, retry-tries}
use kit_legacy.Observe.Logger
use kit_legacy.Observe.Observer
use kit_legacy.Observe.Observer.{Observer, infof}
use kit_legacy.Connect.{RetryConfig, retry_or_default, Built, announced, built, connect}
use kit_legacy.Database.Store.{DatabaseConfig, Database}
use kit_legacy.Database.Construct.{
  DatabaseOptions, with_defaults, data_source, PoolEnv, PoolConfig, pool_config, open_pool,
  connect_error, announce, finish, from_parsed, new_database,
}

module _ {F : Type 0} where
  -- The pools that were made, and those that were closed.
  abbrev pub pools_opened : World F → ℕ
  pools_opened [] = 0
  pools_opened (Event.opened what none ∷ w) = suc (pools_opened w)
  pools_opened (_ ∷ w) = pools_opened w

  abbrev pub pools_closed : World F → ℕ
  pools_closed [] = 0
  pools_closed (Event.pool_closed ∷ w) = suc (pools_closed w)
  pools_closed (_ ∷ w) = pools_closed w

  -- An error, behind so many more pools made and none closed.
  abbrev pub Leaks : ℕ → World F → Outcome F (Option (GoError F)) × World F → Type 0
  Leaks more w course =
      (err : GoError F) × (course.0 ≡ returned (some err))
      × (pools_opened course.1 ≡ pools_opened w + more)
      × (pools_closed course.1 ≡ pools_closed w)

module _ {F : Type 0} ⦃lib : ErrorsLib F⦄ where
  infof_opens :
      (o : Observer) (text : String) (w : World F)
      → ((infof o text w).0 ≡ returned tt)
        × (pools_opened (infof o text w).1 ≡ pools_opened w)
        × (pools_closed (infof o text w).1 ≡ pools_closed w)
  unfolding infof Observer.at_level Logger.infof
  infof_opens o text w = ground arith

  open_pool-Leaks :
      (env : PoolEnv F) (config : PoolConfig) (w : World F) (err : GoError F)
      → env.connect_config config w ≡ none
      → env.ping (Event.opened "pool" none ∷ w) ≡ some err
      → Leaks 1 w (open_pool env config w)
  unfolding open_pool connect_error
  open_pool-Leaks env config w err connected refused =
      (to_error (wrap_as err_database_generic (some err)), ground arith, ground arith, ground arith)

  -- The pools can be made, and no ping is answered.
  abbrev pub Unanswered : PoolEnv F → PoolConfig → Type 0
  Unanswered env config =
      (w : World F)
      → (env.connect_config config w ≡ none)
        × ((err : GoError F) × (env.ping (Event.opened "pool" none ∷ w) ≡ some err))

  attempt-Leaks :
      (env : PoolEnv F) (config : PoolConfig) (o : Observer) (given : DatabaseConfig)
      (retry : RetryConfig)
      → Unanswered env config
      → (k : ℕ) (w : World F)
      → Leaks 1 w (announced (announce o given retry) (open_pool env config) k w)
  unfolding announced announce
  attempt-Leaks env config o given retry unanswered k w =
      let text =
        "Trying to connect to the "
        & given.database_name
        & " database "
        & show k
        & "/"
        & show_ℤ retry.attempts in
      let (quiet, opens, closes) = infof_opens o text w in
      let noted = (infof o text w).1 in
      let (connected, (err, refused)) = unanswered noted in
      let (failure, reply, opened, closed) =
        open_pool-Leaks env config noted err connected refused in
      let course = bind-returned (infof o text) (λ _. open_pool env config) w tt quiet in
      (
        failure,
        ap (λ c. c.0) course ∙ reply,
        ap (λ c. pools_opened c.1) course ∙ (opened ∙ ap (λ n. n + 1) opens),
        ap (λ c. pools_closed c.1) course ∙ (closed ∙ closes),
      )

module _ {F : Type 0} (try : ℕ → Fallible F) where
  again-Leaks :
      (more k : ℕ) (w : World F)
      → Leaks 1 w (try k w)
      → Leaks (suc more) (try k w).1 (tries more (suc k) try (try k w).1)
      → Leaks (suc (suc more)) w (tries (suc more) k try w)
  unfolding tries again
  again-Leaks more k w (err, e, opened, closed) (err', e', opened', closed') =
      let reply : tries (suc more) k try w ≡ tries more (suc k) try (try k w).1 =
        ap (λ o. again (o, (try k w).1) (tries more (suc k) try)) e in
      (
        err',
        ap (λ c. c.0) reply ∙ e',
        ap (λ c. pools_opened c.1) reply ∙ omega (arith, opened, opened'),
        ap (λ c. pools_closed c.1) reply ∙ (closed' ∙ closed),
      )

  tries-Leaks :
      ((k : ℕ) (w : World F) → Leaks 1 w (try k w))
      → (more k : ℕ) (w : World F) → Leaks (suc more) w (tries more k try w)
  unfolding tries
  tries-Leaks each zero k w = each k w
  tries-Leaks each (suc more) k w =
      again-Leaks more k w (each k w) (tries-Leaks each more (suc k) (try k w).1)

module _ {F : Type 0} ⦃lib : ErrorsLib F⦄ ⦃timer : DeadlineLib F⦄ ⦃retrier : RetrierLib F⦄ where
  settled_error :
      (d : Option ℤ) (err : GoError F) (result : Option (GoError F))
      → Settles d err_database_timed_out err_database_generic (some err) result
      → (e : GoError F) × (result ≡ some e)
  settled_error d err result (inl (nil, _)) = cc
  settled_error d err result (inr (inl (_, e))) = (_, e)
  settled_error d err result (inr (inr (_, _, _, e))) = (_, e)

  connect-Leaks :
      (ctx : Context F) (retry : RetryConfig) (try : ℕ → Fallible F) (more : ℕ) (w : World F)
      → retry.attempts ≡ pos (suc more)
      → ((k : ℕ) (w' : World F) → Leaks 1 w' (try k w'))
      → Leaks (suc more) w (connect ctx retry err_database_timed_out err_database_generic try w)
  unfolding connect
  connect-Leaks ctx retry try more w positive each =
      let retried = retry-tries more (pos 0) retry.initial_delay retry.limit_delay try w in
      let work = exponential_retry retry.attempts retry.initial_delay retry.limit_delay none try in
      let ran : work w ≡ tries more 1 try w =
        ap (λ n. exponential_retry n retry.initial_delay retry.limit_delay none try w) positive
        ∙ retried.0 in
      let (err, e, opened, closed) = tries-Leaks try each more 1 w in
      let (result, whole, settles) =
        bounded_lem ctx err_database_timed_out err_database_generic work w (some err)
          (ap (λ c. c.0) ran ∙ e) in
      let (failure, is_error) = settled_error ctx.deadline err result settles in
      (
        failure,
        ap (λ c. c.0) whole ∙ ap returned is_error,
        ap (λ c. pools_opened c.1) whole ∙ (ap (λ c. pools_opened c.1) ran ∙ opened),
        ap (λ c. pools_closed c.1) whole ∙ (ap (λ c. pools_closed c.1) ran ∙ closed),
      )

  -- An error, behind so many more pools made and none closed.
  unfoldable pub Abandons : ℕ → World F → Outcome F (Built F Database) × World F → Type 0
  Abandons pools w course =
      (err : GoError F) × (course.0 ≡ returned (inl err))
      × (pools_opened course.1 ≡ pools_opened w + pools)
      × (pools_closed course.1 ≡ pools_closed w)

  -- NewDatabase with a positive number of attempts, where pools can be made but no ping is answered,
  -- returns an error, and every attempt has left a pool that nothing closes.
  pub new_database-Abandons :
      (env : PoolEnv F) (ctx : Context F) (o : Observer) (procs : ℕ) (given : DatabaseOptions)
      (retry : Option RetryConfig) (params : List (String × String)) (more : ℕ) (w : World F)
      → env.parse_config (data_source (with_defaults procs given)) ≡ inr params
      → (retry_or_default retry).attempts ≡ pos (suc more)
      → Unanswered env (pool_config o (with_defaults procs given) params)
      → Abandons (suc more) w (new_database env ctx o procs given retry w)
  unfolding Abandons new_database from_parsed built
  new_database-Abandons env ctx o procs given retry params more w parsed positive unanswered =
      let config = with_defaults procs given in
      let retry' = retry_or_default retry in
      let pool = pool_config o config params in
      let try = announced (announce o config retry') (open_pool env pool) in
      let (err, e, opened, closed) =
        connect-Leaks ctx retry' try more w positive
          (attempt-Leaks env pool o config retry' unanswered) in
      let attempts = connect ctx retry' err_database_timed_out err_database_generic try in
      let after = λ (r : Option (GoError F)). built r (finish o config) in
      let course =
        ap (λ p. from_parsed env ctx o config retry' p w) parsed
        ∙ bind-returned attempts after w (some err) e in
      (
        err,
        ap (λ c. c.0) course,
        ap (λ c. pools_opened c.1) course ∙ opened,
        ap (λ c. pools_closed c.1) course ∙ closed,
      )

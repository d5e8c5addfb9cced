-- ===== src/Database/Effects.antt =====
-- What the statements and transactions of database.go leave in a database: an abstract store, which
-- follows the calls of a trace.
use kit_legacy.Base.{
  String, ◌≡◌, refl, ap, ◌∙◌, sym, Bool, true, false, Option, none, some, List, [], ◌∷◌, ◌++◌,
}
use mathlib.Core.List.{append_assoc}
use kit_legacy.Errors.Value.{GoError}
use kit_legacy.World.Event.{Event, World}
use kit_legacy.World.Action.{
  Outcome, returned, panicked, exited, Action, pure, emit, ask, look, when, ◌>>=◌,
}

-- The statements that the database keeps, and those of the open transaction, the newest first.
pub record Store : Type 0 where
  pub saved : List String
  pub pending : Option (List String)

abbrev pub more : List String → Option (List String) → Option (List String)
more sqls none = none
more sqls (some pending) = some (sqls ++ pending)

-- Statements run in the open transaction.
abbrev pub run_in : List String → Store → Store
run_in sqls s = record s { pending = more sqls s.pending }

abbrev pub keep : Option (List String) → List String → List String
keep none saved = saved
keep (some pending) saved = pending ++ saved

-- A statement that fails, and a commit that fails, leave no effect; a rollback ends what is open.
unfoldable pub apply : {F : Type 0} → Event F → Store → Store
apply (Event.began none) s = record s { pending = some [] }
apply (Event.committed none) s = record { saved = keep s.pending s.saved; pending = none }
apply (Event.rolled_back reply) s = record s { pending = none }
apply (Event.queried true sql none) s = run_in (sql ∷ []) s
apply (Event.executed true sql none) s = run_in (sql ∷ []) s
apply (Event.queried false sql none) s = record s { saved = sql ∷ s.saved }
apply (Event.executed false sql none) s = record s { saved = sql ∷ s.saved }
apply _ s = s

unfoldable pub replay : {F : Type 0} → World F → Store
replay [] = record { saved = []; pending = none }
replay (event ∷ w) = apply event (replay w)

abbrev pub Whatever : {A : Type 0} → A → Type 0
Whatever a = Unit

more-append : (a b : List String) (p : Option (List String)) → more a (more b p) ≡ more (a ++ b) p
more-append a b none = refl
more-append a b (some p) = ap some (sym (append_assoc a b p))

more-nil : (p : Option (List String)) → more [] p ≡ p
more-nil none = refl
more-nil (some p) = refl

module _ {F : Type 0} where
  -- From one trace to another, all that has happened to the store are statements in the transaction.
  unfoldable pub Runs : World F → World F → Type 0
  Runs w w' = (sqls : List String) × (replay w' ≡ run_in sqls (replay w))

  pub Runs-refl : (w : World F) → Runs w w
  unfolding Runs
  Runs-refl w =
      ([], ap (λ p. record (replay w) { pending = p }) (sym (more-nil (replay w).pending)))

  pub Runs-trans : (w w' w'' : World F) → Runs w w' → Runs w' w'' → Runs w w''
  unfolding Runs
  Runs-trans w w' w'' (a, e) (b, e') = (
    b ++ a,
    e'
        ∙ ap (run_in b) e
        ∙ ap (λ p. record (replay w) { pending = p }) (more-append b a (replay w).pending),
  )

  -- A call that the store does not see.
  pub Runs-other :
      (event : Event F) (w : World F) → ((s : Store) → apply event s ≡ s) → Runs w (event ∷ w)
  unfolding Runs replay
  Runs-other event w neutral = let (sqls, e) = Runs-refl w in (sqls, neutral (replay w) ∙ e)

  abbrev pub Returns : {A : Type 0} → (A → Type 0) → Outcome F A → Type 0
  Returns P (returned a) = P a
  Returns P (panicked v) = Unit
  Returns P (exited code) = Unit

  -- An action that only runs statements in the open transaction, and returns what `P` says if it returns.
  unfoldable pub Inside : {A : Type 0} → (A → Type 0) → Action F A → Type 0
  Inside P m = (w : World F) → Runs w (m w).1 × Returns P (m w).0

  bind-Inside_course :
      {A B : Type 0} (P : A → Type 0) (Q : B → Type 0) (w : World F) (r : Outcome F A × World F)
      (k : A → Action F B)
      → Runs w r.1 × Returns P r.0
      → ((a : A) → P a → Inside Q (k a))
      → Runs w (((λ (u : World F). r) >>= k) w).1 × Returns Q (((λ (u : World F). r) >>= k) w).0
  unfolding Inside
  bind-Inside_course P Q w (returned a, w') k (runs, p) rest =
      let (runs', q) = rest a p w' in (Runs-trans w w' _ runs runs', q)
  bind-Inside_course P Q w (panicked v, w') k (runs, p) rest = (runs, tt)
  bind-Inside_course P Q w (exited code, w') k (runs, p) rest = (runs, tt)

  pub bind-Inside :
      {A B : Type 0} (P : A → Type 0) (Q : B → Type 0) (m : Action F A) (k : A → Action F B)
      → Inside P m
      → ((a : A) → P a → Inside Q (k a))
      → Inside Q (m >>= k)
  unfolding Inside
  bind-Inside P Q m k first rest w = bind-Inside_course P Q w (m w) k (first w) rest

  pub look-Inside : {A : Type 0} (reply : World F → A) → Inside Whatever (look reply)
  unfolding Inside
  look-Inside reply w = (Runs-refl w, tt)

  pub emit-Inside :
      (event : Event F) → ((s : Store) → apply event s ≡ s) → Inside Whatever (emit event)
  unfolding Inside
  emit-Inside event neutral w = (Runs-other event w neutral, tt)

  pub ask-Inside :
      {A : Type 0} (reply : World F → A) (event : A → Event F)
      → ((w : World F) → Runs w (event (reply w) ∷ w))
      → Inside Whatever (ask reply event)
  unfolding Inside
  ask-Inside reply event runs w = (runs w, tt)

  pub when-Inside :
      (b : Bool) (m : Action F (Unit {0})) → Inside Whatever m → Inside Whatever (when b m)
  unfolding Inside
  when-Inside true m h w = h w
  when-Inside false m h w = (Runs-refl w, tt)

  -- A statement in the transaction.
  pub query-Runs :
      (sql : String) (reply : Option (GoError F)) (w : World F)
      → Runs w (Event.queried true sql reply ∷ w)
  unfolding Runs replay apply
  query-Runs sql none w = (sql ∷ [], refl)
  query-Runs sql (some err) w = Runs-refl w

  pub exec-Runs :
      (sql : String) (reply : Option (GoError F)) (w : World F)
      → Runs w (Event.executed true sql reply ∷ w)
  unfolding Runs replay apply
  exec-Runs sql none w = (sql ∷ [], refl)
  exec-Runs sql (some err) w = Runs-refl w

pub pure-Inside :
    (F : Type 0) {A : Type 0} (P : A → Type 0) (a : A) → P a → Inside P (pure {F = F} a)
unfolding Inside
pure-Inside F P a p w = (Runs-refl w, p)

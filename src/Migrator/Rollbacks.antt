-- ===== src/Migrator/Rollbacks.antt =====
-- Which versions `Rollback` of migrator.go forces and migrates to.
use kit_legacy.Base.{
  ℕ, ℤ, uint, pos, ◌-ℤ◌, Bool-cases, Option-cases, subst, sym, if◌then◌else◌, ltb, ◌&◌, show,
  show_ℤ, ◌<◌, ◌≡◌, ap, ◌∙◌, ◌↔◌, ◌⊎◌, inl, inr, Bool, true, false, Option, none, some, List, ◌∷◌,
  arith,
}
use kit_legacy.Errors.Value.{GoError, ErrorsLib}
use kit_legacy.World.Event.{Event, World}
use kit_legacy.World.Action.{bind-returned, ask, unless_err, ◌>>=◌, Outcome, returned}
use kit_legacy.Observe.Observer
use kit_legacy.Migrator.Operation.{
  Migrator, MigrateEnv, rollback_work, rollback_current, rollback_dirty, generic_as, generic_withf,
  is_ahead,
}
use kit_legacy.Migrator.Versions.{changes, infof_quiet, info_quiet}

module _ {F : Type 0} ⦃lib : ErrorsLib F⦄ (self : Migrator) (env : MigrateEnv F)
    (schema_version : ℤ) where
  -- The course of `Rollback` from a version behind the changes `before`: it leaves the schema alone, and
  -- returns nil exactly at the desired version; or it migrates once, from a version above the desired
  -- one, and returns nil exactly when the migration succeeds.
  unfoldable pub RollsFrom : List (Event F) → ℕ → Outcome F (Option (GoError F)) × World F → Type 0
  RollsFrom before current course =
      ((changes course.1 ≡ before) × ((course.0 ≡ returned none) ↔ (current ≡ uint schema_version)))
      ⊎ ((r : Option (GoError F)) × (changes course.1
            ≡ Event.migrated (uint schema_version) r ∷ before)
          × (uint schema_version < current)
          × ((course.0 ≡ returned none) ↔ (r ≡ none)))

  rollback_current-RollsFrom :
      (current : ℕ) (w : World F)
      → RollsFrom (changes w) current (rollback_current self env schema_version current w)
  unfolding RollsFrom rollback_current generic_as generic_withf is_ahead changes
  rollback_current-RollsFrom current w =
      let counted =
        (Observer.infof self.observer
          (show_ℤ (pos current -ℤ schema_version) & " migrations to be rollbacked") w).1 in
      let quiet_count =
        infof_quiet self.observer
          (show_ℤ (pos current -ℤ schema_version) & " migrations to be rollbacked") w in
      let quiet_none = info_quiet self.observer "No migrations to rollback" w in
      let quiet_done = info_quiet self.observer "Rollbacked all migrations successfully" (
        Event.migrated (uint schema_version) (env.migrate (uint schema_version) counted)
        ∷ counted) in
      elim (Bool-cases (ltb (uint schema_version) current)) [
        | inl above ↦
            inr
              (env.migrate (uint schema_version) counted, ground arith, ground arith, ground arith)
        | inr not_above ↦ inl (ground arith, ground arith)
      ]

  -- What `Rollback` does by what it reads: an error, a missing version included, is returned in the
  -- generic error and changes nothing; a clean version goes on as it is; a dirty one is forced clean first,
  -- and goes on if that succeeds, while an error of it is returned and nothing is migrated.
  unfoldable pub Rolls : World F → Outcome F (Option (GoError F)) × World F → Type 0
  Rolls w course =
      let reply = env.read_version w in
      ((err : GoError F)
        → reply.err ≡ some err
        → (course.0 ≡ returned (generic_as err)) × (changes course.1 ≡ changes w))
      × (reply.err ≡ none → reply.bad ≡ false → RollsFrom (changes w) reply.version course)
      × (reply.err ≡ none
          → reply.bad ≡ true
          → ((err : GoError F) × (course.0 ≡ returned (generic_as err))
              × (changes course.1
                  ≡ Event.version_forced (pos reply.version) (some err) ∷ changes w))
            ⊎ RollsFrom (Event.version_forced (pos reply.version) none ∷ changes w) reply.version
                course)

  unfoldable Forced : List (Event F) → ℕ → Outcome F (Option (GoError F)) × World F → Type 0
  Forced before current course =
      ((err : GoError F) × (course.0 ≡ returned (generic_as err))
        × (changes course.1 ≡ Event.version_forced (pos current) (some err) ∷ before))
      ⊎ RollsFrom (Event.version_forced (pos current) none ∷ before) current course

  rollback_dirty-Forced :
      (current : ℕ) (w : World F)
      → Forced (changes w) current (rollback_dirty self env schema_version current w)
  unfolding Forced rollback_dirty changes
  rollback_dirty-Forced current w =
      let text = "Current schema version " & show current & " is dirty, ignoring" in
      let noted = (Observer.infof self.observer text w).1 in
      let (quiet, same) = infof_quiet self.observer text w in
      let after = λ (o : Option (GoError F)).
        unless_err o generic_as (rollback_current self env schema_version current)
          (Event.version_forced (pos current) o ∷ noted) in
      let forced = λ (_ : Unit {0}).
        ask (env.force (pos current)) (Event.version_forced (pos current)) >>= λ err.
        unless_err err generic_as (rollback_current self env schema_version current) in
      let course = bind-returned (Observer.infof self.observer text) forced w tt quiet in
      elim (Option-cases (env.force (pos current) noted)) [
        | inl e ↦ inr (
            subst {A = Outcome F (Option (GoError F)) × World F}
              (λ y. RollsFrom (Event.version_forced (pos current) none ∷ changes w) current y)
              (sym (course ∙ ap after e))
              (subst {A = List (Event F)}
                (λ before. RollsFrom (Event.version_forced (pos current) none ∷ before) current (
                  rollback_current self env schema_version current
                    (Event.version_forced (pos current) none ∷ noted)))
                same
                (rollback_current-RollsFrom current
                  (Event.version_forced (pos current) none ∷ noted))))
        | inr (err, e) ↦ inl (
          err,
          ap (λ y. y.0) (course ∙ ap after e),
          ap (λ y. changes y.1) (course ∙ ap after e)
              ∙ ap (λ before. Event.version_forced (pos current) (some err) ∷ before) same,
        )
      ]

  course_of :
      {w : World F} {bad : Bool}
      → (env.read_version w).bad ≡ bad
      → (env.read_version w).err ≡ none
      → rollback_work self env schema_version w
        ≡ (if bad
              then rollback_dirty self env schema_version (env.read_version w).version
              else rollback_current self env schema_version (env.read_version w).version)
            (Event.version_read ∷ w)
  unfolding rollback_work
  course_of {w} {bad} same e =
      let current = (env.read_version w).version in
      let dirty = rollback_dirty self env schema_version current in
      let clean = rollback_current self env schema_version current in
      let next = Event.version_read ∷ w in
      ap (λ o. unless_err o generic_as (if (env.read_version w).bad then dirty else clean) next) e
      ∙ ap (λ b. (if b then dirty else clean) next) same

  -- `Rollback`, within its time: an error of the version, a missing version included, changes nothing and
  -- is returned in the generic error; a clean version is left alone, with nil exactly at the desired
  -- version, or migrated by one call downwards to it, with nil exactly when the call succeeds; a dirty
  -- version is forced clean first, and goes on like a clean one only if that succeeds.
  pub rollback_work-Rolls : (w : World F) → Rolls w (rollback_work self env schema_version w)
  unfolding Rolls Forced rollback_work changes
  rollback_work-Rolls w =
      let current = (env.read_version w).version in
      let next = Event.version_read ∷ w in
      (
        λ err e. ground arith,
        λ e clean.
            subst {A = Outcome F (Option (GoError F)) × World F}
              (λ y. RollsFrom (changes w) current y) (sym (course_of clean e))
              (rollback_current-RollsFrom current next),
        λ e dirty.
            subst {A = Outcome F (Option (GoError F)) × World F} (λ y. Forced (changes w) current y)
              (sym (course_of dirty e)) (rollback_dirty-Forced current next),
      )

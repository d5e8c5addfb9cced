-- ===== src/Migrator/Versions.antt =====
-- Which versions the operations of migrator.go migrate between.
use kit_legacy.Base.{
  ℕ, ℤ, uint, not, ◌&&◌, is_some, ltb, pos, ◌-ℤ◌, Bool-cases, String, ◌&◌, show_ℤ, ◌<◌, ◌≡◌, ◌↔◌,
  ◌⊎◌, inl, inr, Bool, false, Option, none, List, [], ◌∷◌, arith,
}
use kit_legacy.Errors.Value.{GoError, ErrorsLib}
use kit_legacy.World.Event.{a_string, Event, World}
use kit_legacy.World.Action.{Outcome, returned}
use kit_legacy.Observe.Logger
use kit_legacy.Observe.Observer
use kit_legacy.Migrator.Operation.{
  Migrator, MigrateEnv, version_error, assert_work, apply_work, generic_as, generic_withf, is_dirty,
  is_behind, is_ahead,
}

-- The calls of a trace that change the schema: each migration and each forced version.
unfoldable pub changes : {F : Type 0} → World F → List (Event F)
changes [] = []
changes (Event.migrated v r ∷ w) = Event.migrated v r ∷ changes w
changes (Event.version_forced v r ∷ w) = Event.version_forced v r ∷ changes w
changes (_ ∷ w) = changes w

module _ {F : Type 0} ⦃lib : ErrorsLib F⦄ where
  -- A message to the observer changes no schema.
  pub infof_quiet :
      (o : Observer.Observer) (text : String) (w : World F)
      → ((Observer.infof o text w).0 ≡ returned tt)
        × (changes (Observer.infof o text w).1 ≡ changes w)
  unfolding Observer.infof Observer.at_level Logger.infof changes
  infof_quiet o text w = ground arith

  pub info_quiet :
      (o : Observer.Observer) (text : String) (w : World F)
      → ((Observer.info o (a_string text ∷ []) w).0 ≡ returned tt)
        × (changes (Observer.info o (a_string text ∷ []) w).1 ≡ changes w)
  unfolding Observer.info Observer.at_level Logger.info changes
  info_quiet o text w = ground arith

module _ {F : Type 0} ⦃lib : ErrorsLib F⦄ (self : Migrator) (env : MigrateEnv F)
    (schema_version : ℤ) (w : World F) where
  -- The version is read, clean, and the desired one.
  abbrev pub IsAt : ℕ → Type 0
  IsAt target =
      (version_error env (env.read_version w).err ≡ none)
      × ((env.read_version w).bad ≡ false)
      × ((env.read_version w).version ≡ target)

  -- `Assert`, within its time, returns nil exactly when the database is clean and at the desired version
  -- (no version at all counts as the version that `Version()` replies beside `ErrNilVersion`), and it
  -- never changes the schema.
  pub assert_work-none_iff :
      (((assert_work self env schema_version w).0 ≡ returned none) ↔ IsAt (uint schema_version))
      × (changes (assert_work self env schema_version w).1 ≡ changes w)
  unfolding assert_work generic_as generic_withf is_dirty is_behind is_ahead changes
  assert_work-none_iff = ground (
    arith,
    infof_quiet self.observer ("Desired schema version " & show_ℤ schema_version & " asserted")
        (Event.version_read ∷ w),
  )

  -- The course of an operation: it leaves the schema alone, and returns nil exactly at the desired
  -- version; or it migrates once, from a version on the right side of the desired one, and returns nil
  -- exactly when the migration succeeds.
  unfoldable pub Migrates : (ℕ → Type 0) → Outcome F (Option (GoError F)) × World F → Type 0
  Migrates Side course =
      ((changes course.1 ≡ changes w) × ((course.0 ≡ returned none) ↔ IsAt (uint schema_version)))
      ⊎ ((r : Option (GoError F)) × (changes course.1
            ≡ Event.migrated (uint schema_version) r ∷ changes w)
          × (version_error env (env.read_version w).err ≡ none)
          × ((env.read_version w).bad ≡ false)
          × Side (env.read_version w).version
          × ((course.0 ≡ returned none) ↔ (r ≡ none)))

  announced : World F
  announced =
      (Observer.infof self.observer
        (show_ℤ (schema_version -ℤ pos (env.read_version w).version) & " migrations to be applied")
        (Event.version_read ∷ w)).1

  -- whether `Apply` gets to the migration
  upgrades : Bool
  upgrades =
      not (is_some (version_error env (env.read_version w).err))
      && not (env.read_version w).bad
      && ltb (env.read_version w).version (uint schema_version)

  -- `Apply`, within its time, migrates only a clean database and only upwards, to the desired version,
  -- by one call of the library; otherwise the schema stays as it is, and nil means that the database is at
  -- the desired version.
  pub apply_work-Migrates :
      Migrates (λ v. v < uint schema_version) (apply_work self env schema_version w)
  unfolding Migrates apply_work generic_as generic_withf is_dirty is_behind changes announced
      upgrades
  apply_work-Migrates =
      let quiet_count =
        infof_quiet self.observer
          (show_ℤ (schema_version -ℤ pos (env.read_version w).version)
            & " migrations to be applied")
          (Event.version_read ∷ w) in
      let quiet_none = info_quiet self.observer "No migrations to apply" (Event.version_read ∷ w) in
      let quiet_done = info_quiet self.observer "Applied all migrations successfully" (
        Event.migrated (uint schema_version) (env.migrate (uint schema_version) announced)
        ∷ announced) in
      elim (Bool-cases upgrades) [
        | inl yes' ↦ inr (
          env.migrate (uint schema_version) announced,
          ground arith,
          ground arith,
          ground arith,
          ground arith,
          ground arith,
        )
        | inr no' ↦ inl (ground arith, ground arith)
      ]

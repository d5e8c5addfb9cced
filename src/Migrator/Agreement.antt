-- ===== src/Migrator/Agreement.antt =====
-- `Apply` or `Rollback` of migrator.go with `Assert` behind it.
use kit_legacy.Base.{
  ℕ, ℤ, pos, uint, ◌≡◌, refl, sym, ap, ◌∙◌, ◌⊎◌, inl, inr, Bool-cases, Option-cases, false, Option,
  none, List, ◌∷◌,
}
use kit_legacy.Errors.Value.{GoError, ErrorsLib}
use kit_legacy.World.Event.{Event, World}
use kit_legacy.World.Action.{Outcome, returned, Fallible}
use kit_legacy.World.Context.{Context}
use kit_legacy.Utils.Deadline.{DeadlineLib}
use kit_legacy.Migrator.Operation.{
  Migrator, VersionReply, MigrateEnv, version_error, generic_as, operation, assert_work, apply_work,
  rollback_work, assert, apply, rollback,
}
use kit_legacy.Migrator.Versions.{
  changes, IsAt, Migrates, assert_work-none_iff, apply_work-Migrates,
}
use kit_legacy.Migrator.Rollbacks.{RollsFrom, Rolls, rollback_work-Rolls}
use kit_legacy.Migrator.Frame.{operation-none, untimed-none}

tidy :
    {F : Type 0} (reply : VersionReply F)
    → reply.bad ≡ false
    → reply.err ≡ none
    → reply ≡ record { version = reply.version; bad = false; err = none }
tidy reply good e i = record { version = reply.version; bad = good i; err = e i }

module _ {F : Type 0} (env : MigrateEnv F) where
  -- What golang-migrate says of a database that nothing else changes: the version stays until a
  -- migration, and a migration or a forced version that succeeds leaves its version clean.
  pub record KeepsVersion : Type 0 where
    pub unchanged :
        (w w' : World F) → changes w ≡ changes w' → env.read_version w ≡ env.read_version w'
    pub migrated_to :
        (target : ℕ) (w : World F) (before : List (Event F))
        → changes w ≡ Event.migrated target none ∷ before
        → env.read_version w ≡ record { version = target; bad = false; err = none }
    pub forced_to :
        (target : ℕ) (w : World F) (before : List (Event F))
        → changes w ≡ Event.version_forced (pos target) none ∷ before
        → env.read_version w ≡ record { version = target; bad = false; err = none }

module _ {F : Type 0} ⦃lib : ErrorsLib F⦄ (self : Migrator) (env : MigrateEnv F)
    (schema_version : ℤ) where
  -- The version is the desired one, clean, on every trace with the changes of `w`.
  Arrived : World F → Type 0
  Arrived w =
      (w' : World F)
      → changes w' ≡ changes w
      → IsAt self env schema_version w' (uint schema_version)

  version_error-IsAt :
      (w : World F)
      → env.read_version w ≡ record { version = uint schema_version; bad = false; err = none }
      → IsAt self env schema_version w (uint schema_version)
  unfolding version_error
  version_error-IsAt w e = rw e (refl, refl, refl)

module _ {F : Type 0} ⦃lib : ErrorsLib F⦄ (self : Migrator) (env : MigrateEnv F)
    (schema_version : ℤ) (keeps : KeepsVersion env) where
  apply_work-Arrived :
      (w : World F)
      → (apply_work self env schema_version w).0 ≡ returned none
      → Arrived self env schema_version (apply_work self env schema_version w).1
  unfolding Migrates Arrived
  apply_work-Arrived w h w' same = elim (apply_work-Migrates self env schema_version w) [
    | inl (kept, at) ↦ rw (keeps.unchanged w' w (same ∙ kept)) (at.0 h)
    | inr (r, course, _, _, _, fine) ↦ version_error-IsAt self env schema_version w' (
        keeps.migrated_to (uint schema_version) w' (changes w)
          (same ∙ course ∙ ap (λ x. Event.migrated (uint schema_version) x ∷ changes w) (fine.0 h)))
  ]

  RollsFrom-Arrived :
      (before : List (Event F)) (current : ℕ) (course : Outcome F (Option (GoError F)) × World F)
      → ((w' : World F)
          → changes w' ≡ before
          → env.read_version w' ≡ record { version = current; bad = false; err = none })
      → RollsFrom self env schema_version before current course
      → course.0 ≡ returned none
      → Arrived self env schema_version course.1
  unfolding RollsFrom Arrived
  RollsFrom-Arrived before current course stays (inl (kept, at)) h w' same =
      let there = at.0 h in
      version_error-IsAt self env schema_version w'
        (stays w' (same ∙ kept) ∙ ap (λ v. record { version = v; bad = false; err = none }) there)
  RollsFrom-Arrived before current course stays (inr (r, migrated, _, fine)) h w' same =
      version_error-IsAt self env schema_version w' (
        keeps.migrated_to (uint schema_version) w' before
          (same ∙ migrated ∙ ap (λ x. Event.migrated (uint schema_version) x ∷ before) (fine.0 h)))

  rollback_work-Arrived :
      (w : World F)
      → (rollback_work self env schema_version w).0 ≡ returned none
      → Arrived self env schema_version (rollback_work self env schema_version w).1
  unfolding Rolls generic_as
  rollback_work-Arrived w h =
      let (failed, clean, dirty) = rollback_work-Rolls self env schema_version w in
      let reply = env.read_version w in
      elim (Option-cases reply.err) [
        | inr (err, e) ↦ let (back, _) = failed err e in cc
        | inl e ↦ elim (Bool-cases reply.bad) [
          | inl bad ↦ elim (dirty e bad) [
            | inl (err, back, _) ↦ cc
            | inr rolls ↦
                RollsFrom-Arrived _ _ _
                  (λ w' same. keeps.forced_to reply.version w' (changes w) same) rolls h
          ]
          | inr good ↦
              RollsFrom-Arrived (changes w) reply.version _
                (λ w' same. keeps.unchanged w' w same ∙ tidy reply good e) (clean e good) h
        ]
      ]

module _ {F : Type 0} ⦃lib : ErrorsLib F⦄ ⦃timer : DeadlineLib F⦄ where
  behind :
      (self : Migrator) (env : MigrateEnv F) (ctx ctx' : Context F) (schema_version : ℤ)
      (w : World F) (y : Outcome F (Option (GoError F)) × World F) (work : Fallible F)
      → ((during : World F)
          → (work during).0 ≡ returned none
          → Arrived self env schema_version (work during).1)
      → y ≡ operation ctx work w
      → y.0 ≡ returned none
      → ctx'.deadline ≡ none
      → (assert self env ctx' schema_version y.1).0 ≡ returned none
  unfolding assert Arrived changes
  behind self env ctx ctx' schema_version w y work arrives same h free =
      let (during, _, works, ends) = operation-none ctx work w (ap (λ x. x.0) (sym same) ∙ h) in
      let made = Event.done_made ∷ y.1 in
      untimed-none ctx' (assert_work self env schema_version) y.1 free (
        (assert_work-none_iff self env schema_version made).0.1
          (arrives during works made (ap (λ x. changes x.1) same ∙ ends)))

  -- Where `Apply`, or `Rollback`, to a version returns nil, and nothing else changes the database, an
  -- `Assert` of the same version right behind it returns nil, if its context has no deadline.
  pub assert_agrees :
      (self : Migrator) (env : MigrateEnv F) (keeps : KeepsVersion env) (ctx ctx' : Context F)
      (schema_version : ℤ) (w : World F) (y : Outcome F (Option (GoError F)) × World F)
      → (y ≡ apply self env ctx schema_version w) ⊎ (y ≡ rollback self env ctx schema_version w)
      → y.0 ≡ returned none
      → ctx'.deadline ≡ none
      → (assert self env ctx' schema_version y.1).0 ≡ returned none
  unfolding apply rollback
  assert_agrees self env keeps ctx ctx' schema_version w y (inl same) h free =
      behind self env ctx ctx' schema_version w y (apply_work self env schema_version)
        (apply_work-Arrived self env schema_version keeps) same h free
  assert_agrees self env keeps ctx ctx' schema_version w y (inr same) h free =
      behind self env ctx ctx' schema_version w y (rollback_work self env schema_version)
        (rollback_work-Arrived self env schema_version keeps) same h free

-- ===== src/Tests/Migrator.antt =====
-- A migration, and the assertion of its version.
use kit_legacy.Base.{pos, String, ◌≡◌, refl, ap, false, none, inl, List, [], ◌∷◌}
use kit_legacy.World.Event.{Event}
use kit_legacy.World.Action.{returned}
use kit_legacy.Migrator.Operation.{
  VersionReply, MigrateEnv, assert, apply, operation, set_lock_timeout, apply_work, version_error,
}
use kit_legacy.Migrator.Versions.{changes}
use kit_legacy.Migrator.Agreement.{KeepsVersion, assert_agrees}
use kit_legacy.Utils.Deadline.{deadline, run_until, settle}
use kit_legacy.Observe.Observer
use kit_legacy.Tests.Libs.{plain_errors, patient_timer}
use kit_legacy.Tests.Utils.{background}
use kit_legacy.Tests.Store.{at_two, migrator}

-- The version behind the newest change that succeeded.
abbrev version_of : List (Event String) → VersionReply String
version_of [] = record { version = 2; bad = false; err = none }
version_of (Event.migrated target none ∷ before) = record {
  version = target;
  bad = false;
  err = none;
}
version_of (Event.version_forced (pos target) none ∷ before) = record {
  version = target;
  bad = false;
  err = none;
}
version_of (_ ∷ before) = version_of before

abbrev tracked : MigrateEnv String
tracked = record at_two { read_version = λ w. version_of (changes w) }

tracked-KeepsVersion : KeepsVersion tracked
tracked-KeepsVersion = record {
  unchanged = λ w w' e. ap version_of e;
  migrated_to = λ target w before e. ap version_of e;
  forced_to = λ target w before e. ap version_of e;
}

assert_agrees_example :
    (assert migrator tracked background (pos 3) (apply migrator tracked background (pos 3) []).1).0
    ≡ returned none
unfolding apply operation set_lock_timeout deadline run_until apply_work version_error changes
    settle Observer.infof Observer.info Observer.at_level
assert_agrees_example =
    assert_agrees migrator tracked tracked-KeepsVersion background background (pos 3) []
      (apply migrator tracked background (pos 3) []) (inl refl) refl refl

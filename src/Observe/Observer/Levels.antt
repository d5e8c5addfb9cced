-- ===== src/Observe/Observer/Levels.antt =====
-- The filter by level of observer.go.
use kit_legacy.Base.{ℤ, ◌≡◌, true, List, arith, ltb_ℤ}
use kit_legacy.Errors.Value.{ErrorsLib}
use kit_legacy.World.Event.{Any, World}
use kit_legacy.World.Action.{returned}
use kit_legacy.Observe.Observer.{
  Observer, with_level, print, debug, info, warn, log_error, at_level,
}

module _ {F : Type 0} ⦃lib : ErrorsLib F⦄ (self : Observer) where
  -- An observer is silent below its configured level, whatever the level asked for.
  pub with_level_silent :
      (level : ℤ) (i : List (Any F)) (w : World F)
      → ltb_ℤ level self.config.level ≡ true
      → with_level self level i w ≡ (returned tt, w)
  unfolding with_level print debug info warn log_error at_level
  with_level_silent level i w h = ground arith

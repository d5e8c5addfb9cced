-- ===== src/World/Context.antt =====
-- `context.Context` as kit uses it: the deadline, `Err()`, and the values under the keys of kit.go.
use kit_legacy.Base.{ℤ, String, Bool, Option}
use kit_legacy.Errors.Value.{GoError}
use kit_legacy.World.Event.{World}

-- `Err()` is asked at several moments, and what it replies depends on what has happened before.
pub record Context (F : Type 0) : Type 0 where
  pub deadline : Option ℤ
  pub err : World F → Option (GoError F)
  -- whether a value stands under `KeyDatabaseTransaction`
  pub transaction : Bool
  -- the values under `KeyLocalizerLocale` and `KeyTraceID`, as text
  pub locale : Option String
  pub trace_id : Option String

-- ===== src/Observe/Level.antt =====
-- The levels of kit.go (`Level` is an `int`, so a value need not be one of the six) and the tables
-- from them to the levels of zerolog (logger.go), pgx (database.go) and asynq (worker.go). A lookup
-- that misses gives the zero value of the library's level type.
use kit_legacy.Base.{ℤ, pos, negsuc, Bool, if◌then◌else◌, leb_ℤ, ◌&&◌}
use kit_legacy.World.Event.{ZLevel}

abbrev pub lvl_trace : ℤ
lvl_trace = negsuc 4

abbrev pub lvl_debug : ℤ
lvl_debug = negsuc 3

abbrev pub lvl_info : ℤ
lvl_info = negsuc 2

abbrev pub lvl_warn : ℤ
lvl_warn = negsuc 1

abbrev pub lvl_error : ℤ
lvl_error = negsuc 0

abbrev pub lvl_none : ℤ
lvl_none = pos 0

-- `a >= b` on levels.
infix 50 ◌>=◌
abbrev pub ◌>=◌ : ℤ → ℤ → Bool
a >= b = leb_ℤ b a

abbrev pub same_level : ℤ → ℤ → Bool
same_level a b = leb_ℤ a b && leb_ℤ b a

-- zerolog.DebugLevel is 0.
abbrev pub k_level_to_z_level : ℤ → ZLevel
k_level_to_z_level l =
    if same_level l lvl_trace
    then ZLevel.trace
    else if same_level l lvl_debug
    then ZLevel.debug
    else if same_level l lvl_info
    then ZLevel.info
    else if same_level l lvl_warn
    then ZLevel.warn
    else if same_level l lvl_error
    then ZLevel.error
    else if same_level l lvl_none
    then ZLevel.disabled
    else ZLevel.debug

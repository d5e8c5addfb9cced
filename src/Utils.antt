-- ===== src/Utils.antt =====
-- The utilities of kit.go: the methods of `Utils`.
pub mod Deadline
pub mod ByteSize
pub mod RandomString
pub mod Env
pub mod Retry

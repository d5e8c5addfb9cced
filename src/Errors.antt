-- ===== src/Errors.antt =====
-- The error values of error.go and exception.go: a module for the values, one for each type with
-- its methods, and their laws.
pub mod Value
pub mod Error
pub mod Exception
pub mod Laws
pub mod Builtin

-- ===== src/Database.antt =====
-- database.go: the `Database` component. `Construct` is `NewDatabase`, and `Connecting` is about its
-- attempts; `Codes` is about the classification of errors, `Queries` about `Query`, and `Health` about
-- `Health`. `Effects` is an abstract store, which `Statements` and `Atomic` are stated with.
pub mod Effects
pub mod Statements
pub mod Atomic
pub mod Classify
pub mod Codes
pub mod Store
pub mod Transaction
pub mod Construct
pub mod Connecting
pub mod Queries
pub mod Health

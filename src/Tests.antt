-- ===== src/Tests.antt =====
-- Concrete libraries, tests of the definitions on small inputs, and the theorems at inputs that meet
-- their hypotheses.
pub mod Libs
mod Errors
mod Utils
mod ByteSize
mod Queries
mod Atomic
mod Construct
mod Channel
mod Env
mod Observe
mod Store
mod Transactions
mod Migrator
mod Middleware
mod Server
mod Serving
mod Renderer
mod Health
mod Logging

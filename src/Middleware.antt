-- ===== src/Middleware.antt =====
-- The middlewares of the folder middleware: `Timeout`, and in `Chain` those that turn errors and panics
-- of a handler into responses.
pub mod Observer
pub mod Secure
pub mod Chain
pub mod Timeout

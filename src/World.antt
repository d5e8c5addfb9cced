-- ===== src/World.antt =====
-- The effects of the program: the trace of the calls that it makes of other packages, and actions
-- over that trace. Models the calls' places and order, no particular function of the source.
pub mod Event
pub mod Action
pub mod Context

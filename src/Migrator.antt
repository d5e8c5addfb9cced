-- ===== src/Migrator.antt =====
-- migrator.go: the `Migrator` component, over golang-migrate. `Operation` is its three operations and
-- `Close` run one after another; `Versions` and `Rollbacks` are about the versions they migrate between.
-- `Frame` and `Agreement` are about an operation behind another. `Channel` is the channel of operations
-- that overlap, and `Construct` is `NewMigrator`.
pub mod Operation
pub mod Versions
pub mod Rollbacks
pub mod Frame
pub mod Agreement
pub mod Channel
pub mod Construct

-- ===== src/Observe.antt =====
-- logger.go and observer.go: the levels of kit.go, the logger and the observer over it.
pub mod Level
pub mod Logger
pub mod Observer

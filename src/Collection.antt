-- ===== src/Collection.antt =====
-- The checkpoints of julius/collection: one package for each domain of sources.
pub mod Domains
pub mod Writer
pub mod Persisting
pub mod Settling
pub mod Closing
pub mod Persisted
pub mod Resuming
pub mod Resumed
pub mod Window
mod Tests

-- ===== src/Scheduler.antt =====
-- The scheduler of collection sources, julius/collection/scheduler.py.
pub mod Sources
pub mod Validation
pub mod Loop
pub mod Names
pub mod Spec
pub mod Kahn
pub mod Progress
pub mod Books
pub mod Submission
pub mod Batches
pub mod Refines
pub mod Advancing
pub mod Completes
pub mod Limiter
mod Tests

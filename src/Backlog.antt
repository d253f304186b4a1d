-- ===== src/Backlog.antt =====
-- The backlog of opportunities, julius/state/store.py, and the lifecycle of
-- julius/findings/lifecycle.py.
pub mod Lifecycle
pub mod Store
pub mod Reconcile
pub mod Statuses
pub mod Changes
pub mod ByHand
mod Tests

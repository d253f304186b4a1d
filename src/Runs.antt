-- ===== src/Runs.antt =====
-- The resumable run ledger, julius/state/run_store.py: runs, domain checkpoints, the queue of
-- contextual jobs and their results.
pub mod Status
pub mod Ledger
pub mod Queue
pub mod Contextual
pub mod Commands
pub mod Keys
pub mod Preserves
pub mod Evolution
pub mod Methods
pub mod Retirement
pub mod Terminal
pub mod Tasks
pub mod Claiming
pub mod Enqueueing
pub mod Ending
pub mod Results
pub mod Reading
pub mod Lookup
mod Tests

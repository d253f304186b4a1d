-- ===== src/Signals.antt =====
-- What the contextual analysis judged of signals, julius/state/signal_ledger.py.
pub mod Ledger
pub mod Suppression
pub mod Promoted
pub mod Promotions
mod Tests

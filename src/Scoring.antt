-- ===== src/Scoring.antt =====
-- The scales of trust of julius/scoring and julius/findings/maturity.py.
pub mod Evidence
pub mod Weakest
pub mod Confidence
mod Tests

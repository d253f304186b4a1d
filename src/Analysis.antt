-- ===== src/Analysis.antt =====
-- What the model's answers must be before julius/analysis takes them: the worker of one domain, and
-- the answer about a whole run.
pub mod Worker
pub mod Response

-- ===== src/Evaluator.antt =====
-- vrp/evaluator.py: the canonical evaluator.
pub mod Load
pub mod Timeline
pub mod Metrics
pub mod Accounts
pub mod Legal
pub mod Score

-- ===== src/Evaluation.antt =====
-- The policy package: internal/policy/evaluation.
pub mod Statistics
pub mod Findings
pub mod Coverage
pub mod Evaluator
pub mod Recalibration

-- ===== src/Execution/Risk.antt =====
-- The risk evaluator, src/alpha/engines/execution/v1_risk.py, and what it promises.
pub mod Checks
pub mod Pricing
pub mod Evaluator
pub mod Rounding
pub mod Flags
pub mod Decision
pub mod Bracket
pub mod Limits

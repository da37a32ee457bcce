-- ===== src/Rules.antt =====
-- apps/api/app/core/rules.py: the evaluator of stored JSON rules. The definitions are in two
-- children, and the others say what they mean.
pub mod Value
pub mod Evaluate
pub mod Meaning
pub mod Faults
mod Tests

-- ===== src/Rules/Operators.antt =====
-- The operators of the leaves (packages/backend/src/analytics/rules/operators).
pub mod Comparison
pub mod State
pub mod Crossing
pub mod Channel
pub mod Moving
pub mod Evaluate
pub mod Holds

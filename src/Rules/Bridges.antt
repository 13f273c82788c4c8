-- ===== src/Rules/Bridges.antt =====
-- What turns outside streams into events (packages/backend/src/analytics/rules/bridges).
pub mod BarLifecycle
pub mod IndicatorCascade

-- ===== src/Rules/Dispatch.antt =====
-- From an event to the rules that fire (packages/backend/src/analytics/rules/dispatch).
pub mod Latch
pub mod Routes
pub mod TickRuleCache
pub mod Dispatcher
pub mod Scheduler

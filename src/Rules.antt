-- ===== src/Rules.antt =====
-- The rules engine: packages/core/src/types/rules for the data, and
-- packages/backend/src/analytics/rules with packages/backend/src/common/domain/rules for the code.
pub mod Operand
pub mod Condition
pub mod Event
pub mod EventEntry
pub mod Rule
pub mod Series
pub mod Views
pub mod Bridges
pub mod Context
pub mod Operators
pub mod Repository
pub mod Service
pub mod Lookups
pub mod Dispatch
pub mod Actions
pub mod Orchestrator

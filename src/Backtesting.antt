-- ===== src/Backtesting.antt =====
-- The trading model of a backtest (packages/backend/src/analytics/backtesting/backtest-executor.ts
-- and packages/core/src/types/backtesting).
pub mod Trade
pub mod Levels
pub mod Summary
pub mod Executor
pub mod Preload
pub mod Replay

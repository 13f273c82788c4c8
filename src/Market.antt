-- ===== src/Market.antt =====
-- Candles and their stores (packages/core/src/types/market-data and packages/backend/src/market).
pub mod Candle
pub mod Candles
pub mod Symbol
pub mod Backfill

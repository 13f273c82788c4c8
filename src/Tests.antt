-- ===== src/Tests.antt =====
-- The theorems at concrete inputs, with signed integers for numbers.
mod Operators
mod Conditions
mod Dispatching
mod Backtests
mod Ticks
mod Firing
mod Stored
mod Streams
mod Replays
mod Services

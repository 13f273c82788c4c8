-- ===== src/Delivery.antt =====
-- The streams to clients (packages/backend/src/delivery).
pub mod Subscriptions

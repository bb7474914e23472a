-- ===== src/Webhooks.antt =====
-- meeting-api's outbound webhooks.
pub mod Guard
pub mod Retry
pub mod Delivery

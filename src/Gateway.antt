-- ===== src/Gateway.antt =====
-- The gateway in front of the tracker.
pub mod Search

-- ===== src/Tracker.antt =====
-- The tracker: its two graph stores and the services over them.
pub mod Alpha
pub mod Beta

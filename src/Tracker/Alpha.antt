-- ===== src/Tracker/Alpha.antt =====
-- The v1alpha side of the tracker.
pub mod Types
pub mod Sql
pub mod Store
pub mod Schema
pub mod Traversal
pub mod Client
pub mod Services
pub mod Track
pub mod Search
pub mod Setup

-- ===== src/Tracker/Beta.antt =====
-- The v1beta graph store of the tracker.
pub mod Types
pub mod Transforms
pub mod Driver
pub mod Server
pub mod Listing
pub mod Manifests
pub mod Traverse

-- ===== src/Tests.antt =====
-- Runs on small inputs, and the theorems at concrete inputs.
pub mod Samples
pub mod Codecs
pub mod Stores
pub mod Tracking
pub mod Reading
pub mod Searching
pub mod Walking
pub mod Neighbors
pub mod Listing
pub mod Traversing
pub mod Storing
pub mod Served
pub mod Sorting
pub mod Opening
pub mod Naming
pub mod Relaying
pub mod Indexing
pub mod Fetching
pub mod Paging
pub mod Querying

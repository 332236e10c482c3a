-- ===== src/Indexer.antt =====
-- The indexer: what it indexes, and how it indexes a repository.
pub mod Remotes
pub mod Consumer

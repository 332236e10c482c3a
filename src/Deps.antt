-- ===== src/Deps.antt =====
-- The command line client.
pub mod Topology
pub mod Names
pub mod Commands
pub mod Clients

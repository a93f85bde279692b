-- ===== src/MultiServer.antt =====
-- multi_server.py: the registry of other servers, their snapshots, and the catalog of all resources.
pub mod Servers
pub mod Snapshot
pub mod Catalog
mod Tests

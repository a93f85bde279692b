-- ===== src/Update.antt =====
-- update_engine.py: offline update packages, their checks, and the update with its rollback.
pub mod Paths
pub mod Version
pub mod Package
pub mod Disk
pub mod Rollback
pub mod Restore
pub mod Runtime
pub mod Apply
pub mod Encoding
mod Tests

-- ===== src/Core.antt =====
-- ge360_bridge/core.py: the registries of resources, devices and groups, and access control.
pub mod Data
pub mod Validate
pub mod Date
pub mod Normalize
pub mod Store
pub mod Resources
pub mod Devices
pub mod Groups
pub mod Access
pub mod Integrity
pub mod Sample
mod Tests

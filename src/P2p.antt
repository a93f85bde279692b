-- ===== src/P2p.antt =====
-- p2p.py: the attempts to reach a phone directly through the address translation between.
pub mod Sessions
pub mod Prepare
pub mod WireGuard
pub mod Traversal
pub mod Kept
pub mod Endpoint
pub mod RateLimit
pub mod Grants
mod Tests

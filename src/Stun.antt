-- ===== src/Stun.antt =====
-- nat_discovery.py: the answers of STUN servers.
pub mod Bits
pub mod Message
pub mod Total
pub mod Answer
pub mod Mapping
pub mod Probe
mod Tests

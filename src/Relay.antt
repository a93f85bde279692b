-- ===== src/Relay.antt =====
-- relay_server.py: the server that forwards datagrams between a bridge and a phone which do not
-- reach each other.
pub mod Registry
pub mod Sessions
pub mod Handlers
pub mod Invariant
pub mod Steps
pub mod Ports
pub mod Authentication
pub mod Admission
mod Tests

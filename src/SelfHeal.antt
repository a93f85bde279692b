-- ===== src/SelfHeal.antt =====
-- self_healing.py: the restarts of the units of unhealthy resources.
pub mod State
pub mod Heal
pub mod Run
pub mod Limit
pub mod Outcomes
mod Tests

-- ===== src/Health.antt =====
-- health.py: the health check of a resource, its cache and the summary.
pub mod Check
pub mod Online
pub mod Cache
pub mod Many
pub mod Summary
mod Tests

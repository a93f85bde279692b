-- ===== src/Pairing.antt =====
-- pairing.py: the enrollments, by which a phone becomes a device.
pub mod Enrollments
pub mod Create
pub mod Consume
pub mod Lookup
pub mod Sound
pub mod SingleUse
mod Tests

-- ===== src/Outbox.antt =====
-- The outbox publisher of src/job_visibility/outbox.
pub mod Leases
pub mod Publisher
pub mod Rows
pub mod Delivery
pub mod Settling
pub mod Settles
pub mod Rounds
mod Tests

-- ===== src/Chaos.antt =====
-- The fault injection of src/job_visibility/chaos.
pub mod Rules
pub mod Injector
pub mod Counts
mod Tests

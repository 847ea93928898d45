-- ===== src/Cassandra.antt =====
-- The Cassandra workload of src/job_visibility/scheduler.
pub mod Records
pub mod Client
pub mod Retries
pub mod Effects
pub mod Handler
pub mod Driver
pub mod Bounds
pub mod Selection
mod Tests

-- ===== src/Workload.antt =====
-- The job handlers of src/job_visibility/scheduler/handlers.py.
pub mod Fibonacci
pub mod Doubling
pub mod Handlers
pub mod Values
mod Tests

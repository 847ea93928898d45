-- ===== src/Health.antt =====
-- The health checks of src/job_visibility/observability/health.py.
pub mod Checks
pub mod Ready
mod Tests

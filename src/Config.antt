-- ===== src/Config.antt =====
-- The configuration of src/job_visibility/config.py.
pub mod Groups
pub mod Environment
pub mod Roles
pub mod Accepted
mod Tests

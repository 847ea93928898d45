-- ===== src/Api.antt =====
-- The handlers of the HTTP interface of src/job_visibility/api.py.
pub mod Submission
pub mod Queries
pub mod Ingestion
pub mod Retries
mod Tests

-- ===== src/Repository.antt =====
-- The projection repository of src/job_visibility/persistence/memory.py.
pub mod Memory
pub mod Saves
mod Tests

-- ===== src/Simulation.antt =====
-- The clock and the transport of src/job_visibility/simulation.py.
pub mod Clock
pub mod Transport

-- ===== src/Scheduler.antt =====
-- src/job_visibility/scheduler: the durable scheduler. `Types` has the submissions, claims and table
-- rows, `Tables` the statements on the three tables, `Service` the transactions of
-- `SchedulerService` on one job, `Claims` those on many, `Worker` the execution of a claim and the
-- polling loop; the other modules prove.
pub mod Types
pub mod Tables
pub mod Service
pub mod Claims
pub mod Worker
pub mod Rows
pub mod Fencing
pub mod Invariant
pub mod Batches
pub mod Queue
pub mod Submission
pub mod Reachable
mod Tests

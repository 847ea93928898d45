-- ===== src/Scheduler/Reachable.antt =====
-- The databases that the transactions of src/job_visibility/scheduler/service.py can reach, by steps in
-- any order and by any number of workers.
use job_scheduling_simulatio.Prelude.{ℕ, ◌≤◌, String, Bool, []}
use job_scheduling_simulatio.Model.{Time}
use job_scheduling_simulatio.Scheduler.Service.{submit_checked, start, heartbeat, succeed, fail}
use job_scheduling_simulatio.Scheduler.Submission.{submit_checked-RowsValid}
use job_scheduling_simulatio.Scheduler.Batches.{
  claim_due-RowsValid, recover_expired_claims-RowsValid,
}
use job_scheduling_simulatio.Scheduler.Claims.{claim_due, recover_expired_claims}
use job_scheduling_simulatio.Scheduler.Invariant.{
  start-RowsValid, heartbeat-RowsValid, succeed-RowsValid, CarriesMaximum, fail-RowsValid,
}
use job_scheduling_simulatio.Scheduler.Types.{
  JobSubmission, ClaimedJob, Checkpoint, JobRow, Database, SchedulerService, HandlerError,
}
use job_scheduling_simulatio.Scheduler.Rows.{RowsValid}

-- One transaction. A submission has passed its test, and a claim that fails carries the maximum of its
-- job, as `claim_due` has given it.
pub data Step (service : SchedulerService) : Database → Database → Type 0 where
  submits :
      (fault : Checkpoint → Bool) (value : JobSubmission) (now : Time) (db : Database)
      → 1 ≤ value.max_attempts
      → Step service db (submit_checked service fault value now db).0
  claims :
      (locked : JobRow → Bool) (owner : String) (limit : ℕ) (now : Time) (db : Database)
      → Step service db (claim_due service locked owner limit now db).0
  recovers :
      (locked : JobRow → Bool) (limit : ℕ) (now : Time) (db : Database)
      → Step service db (recover_expired_claims locked limit now db).0
  starts :
      (job : ClaimedJob) (now : Time) (db : Database) → Step service db (start service job now db).0
  beats :
      (job : ClaimedJob) (now : Time) (db : Database)
      → Step service db (heartbeat service job now db).0
  succeeds :
      (job : ClaimedJob) (summary : String) (now : Time) (db : Database)
      → Step service db (succeed service job summary now db).0
  fails :
      (job : ClaimedJob) (failure : HandlerError) (now completed : Time) (db : Database)
      → CarriesMaximum job db
      → Step service db (fail service job failure now completed db).0

pub data Reachable (service : SchedulerService) : Database → Type 0 where
  at_start : Reachable service (record { jobs = []; attempts = []; outbox = []; drawn = 0 })
  extended :
      (db next : Database) → Reachable service db → Step service db next → Reachable service next

Step-RowsValid :
    (service : SchedulerService) (db next : Database)
    → Step service db next
    → RowsValid db
    → RowsValid next
Step-RowsValid service _ _ (submits fault value now db small) v =
    submit_checked-RowsValid service fault value now db small v
Step-RowsValid service _ _ (claims locked owner limit now db) v =
    claim_due-RowsValid service locked owner limit now db v
Step-RowsValid service _ _ (recovers locked limit now db) v =
    recover_expired_claims-RowsValid locked limit now db v
Step-RowsValid service _ _ (starts job now db) v = start-RowsValid service job now db v
Step-RowsValid service _ _ (beats job now db) v = heartbeat-RowsValid service job now db v
Step-RowsValid service _ _ (succeeds job summary now db) v =
    succeed-RowsValid service job summary now db v
Step-RowsValid service _ _ (fails job failure now completed db carried) v =
    fail-RowsValid service job failure now completed db carried v

-- In every database that transactions can reach from the empty one each row stands under its id, its
-- attempts are within their maximum, with one to spare where it can be claimed, and it has an owner, a
-- token and a lease exactly while it is claimed or running.
pub Reachable-RowsValid :
    (service : SchedulerService) (db : Database) → Reachable service db → RowsValid db
Reachable-RowsValid service _ at_start = tt
Reachable-RowsValid service _ (extended db next reached step) =
    Step-RowsValid service db next step (Reachable-RowsValid service db reached)

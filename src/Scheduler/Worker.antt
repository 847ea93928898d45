-- ===== src/Scheduler/Worker.antt =====
-- `SchedulerService.execute` (src/job_visibility/scheduler/service.py) and
-- src/job_visibility/scheduler/worker.py. The handlers are an argument, as the registry is.
use job_scheduling_simulatio.Prelude.{
  ℕ, String, Bool, true, ◌||◌, Option, none, some, List, [], ◌∷◌, ltb, if◌then◌else◌, ◌==◌, nat_key,
  text_key, length, Result, ok, raised,
}
use job_scheduling_simulatio.Model.{Time, Error, value_error}
use job_scheduling_simulatio.Scheduler.Service.{Transaction, bind, start, succeed, fail}
use job_scheduling_simulatio.Scheduler.Claims.{claim_due, recover_expired_claims}
use job_scheduling_simulatio.Scheduler.Types.{
  ClaimedJob, Checkpoint, JobRow, Database, SchedulerService, HandlerError, HandlerOutcome,
  worker_after_claim, worker_before_complete, synthetic_fault, returned, refused, crashed,
}

-- The readings of the clock while one claim is executed.
pub record Timing : Type 0 where
  pub started : Time
  pub failing : Time
  pub completed : Time

-- The error that `execute` reports for an exception that is no `HandlerError`.
abbrev pub unexpected : HandlerError
unexpected = record { code = "UNEXPECTED_HANDLER_ERROR"; retryable = true }

-- What follows a start: the handler runs, and its outcome is written in a transaction of its own.
finish :
    SchedulerService
    → (Checkpoint → Bool)
    → HandlerOutcome
    → ClaimedJob
    → Timing
    → Database
    → Transaction (Option String)
unfolding fail succeed
finish service fault (returned summary) job timing db =
    if fault worker_before_complete
    then (db, raised (synthetic_fault worker_before_complete))
    else let (next, result) = succeed service job summary timing.completed db in
      (next, bind result λ _. ok (some summary))
finish service fault (refused failure) job timing db =
    let (next, result) = fail service job failure timing.failing timing.completed db in
    (next, bind result λ _. ok none)
finish service fault crashed job timing db =
    let (next, result) = fail service job unexpected timing.failing timing.completed db in
    (next, bind result λ _. ok none)

-- A transaction after another that was committed or rolled back.
abbrev pub and_then :
    {A B : Type 0} → Transaction A → (Database → A → Transaction B) → Transaction B
and_then (db, ok a) f = f db a
and_then (db, raised failure) f = (db, raised failure)

-- `execute`: the summary of a success, or nothing for a failure that was recorded.
unfoldable pub execute :
    SchedulerService
    → (Checkpoint → Bool)
    → (ClaimedJob → HandlerOutcome)
    → ClaimedJob
    → Timing
    → Database
    → Transaction (Option String)
unfolding start finish
execute service fault handlers job timing db =
    and_then (start service job timing.started db)
      λ next _. finish service fault (handlers job) job timing next

-- The loop of `run_once` over the claimed jobs. An exception of a job ends the loop; so does a stop
-- that was asked for before the job.
unfoldable pub execute_claimed :
    SchedulerService
    → (Checkpoint → Bool)
    → (ClaimedJob → HandlerOutcome)
    → (ClaimedJob → Timing)
    → (ClaimedJob → Bool)
    → List ClaimedJob
    → Database
    → Transaction (Unit {0})
unfolding execute
execute_claimed service fault handlers timing stopping [] db = (db, ok tt)
execute_claimed service fault handlers timing stopping (job ∷ rest) db =
    if fault worker_after_claim
    then (db, raised (synthetic_fault worker_after_claim))
    else if stopping job
    then (db, ok tt)
    else and_then (execute service fault handlers job (timing job) db)
        λ next _. execute_claimed service fault handlers timing stopping rest next

-- `SchedulerWorker`, its stop flag apart; the interval is in microseconds.
pub record SchedulerWorker : Type 0 where
  pub owner : String
  pub batch_size : ℕ
  pub recovery_batch_size : ℕ
  pub poll_interval : ℕ

-- `SchedulerWorker.__init__`.
unfoldable pub check_worker : SchedulerWorker → Result Error SchedulerWorker
check_worker worker =
    if worker.owner == ""
    then raised value_error
    else if ltb worker.batch_size 1
        || ltb worker.recovery_batch_size 1
        || ltb worker.poll_interval 1
    then raised value_error
    else ok worker

-- `run_once`: recover, claim, execute; the number of claimed jobs.
unfoldable pub run_once :
    SchedulerService
    → SchedulerWorker
    → (JobRow → Bool)
    → (Checkpoint → Bool)
    → (ClaimedJob → HandlerOutcome)
    → (ClaimedJob → Timing)
    → (ClaimedJob → Bool)
    → Time
    → Time
    → Database
    → Transaction ℕ
unfolding recover_expired_claims claim_due execute_claimed
run_once service worker locked fault handlers timing stopping recovering claiming db =
    let (recovered, n) = recover_expired_claims locked worker.recovery_batch_size recovering db in
    let (next, jobs) = claim_due service locked worker.owner worker.batch_size claiming recovered in
    and_then (execute_claimed service fault handlers timing stopping jobs next)
      λ last _. (last, ok (length jobs))

-- ===== src/Scheduler/Service.antt =====
-- The transactions of `SchedulerService` (src/job_visibility/scheduler/service.py). A transaction
-- that raises is rolled back, so it answers with the database that it began with. `fault` says at
-- which checkpoints the fault injector raises.
use job_scheduling_simulatio.Prelude.{
  ◌+◌, String, Bool, true, false, ◌&&◌, Option, none, some, ltb, if◌then◌else◌, ◌==◌, nat_key,
  text_key, lookup, insert, Result, ok, raised,
}
use job_scheduling_simulatio.Model.{
  Time, seconds, code_key, job_created, job_scheduler_submission_requested, job_execution_started,
  job_execution_succeeded, job_execution_failed, job_retry_requested, job_retry_acknowledged,
  job_retries_exhausted,
}
use job_scheduling_simulatio.Scheduler.Tables.{
  submitted_row, start_row, heartbeat_row, release_row, succeed_row, fenced_update, update_attempt,
  add_event, submission_fields, add_job_event,
}
use job_scheduling_simulatio.Scheduler.Types.{
  JobSubmission, ClaimedJob, SubmissionDecision, Checkpoint, Failure, JobStatus, JobRow, Outcome,
  Database, SchedulerService, HandlerError, identical, conflict, scheduler_before_commit,
  scheduler_after_commit, synthetic_fault, retry_wait,
}

abbrev pub Transaction : Type 0 → Type 0
Transaction A = Database × Result Failure A

-- Commits the database of a result, or rolls back.
abbrev pub commit : {A : Type 0} → Database → Result Failure (Database × A) → Transaction A
commit db (ok (next, a)) = (next, ok a)
commit db (raised failure) = (db, raised failure)

abbrev pub bind : {A B : Type 0} → Result Failure A → (A → Result Failure B) → Result Failure B
bind (ok a) f = f a
bind (raised failure) f = raised failure

-- The `=` of two columns that may be null, as Python compares them.
abbrev pub same_text : Option String → Option String → Bool
same_text none none = true
same_text (some a) (some b) = a == b
same_text _ _ = false

-- The comparison of a stored row with a submission of the same id.
unfoldable pub is_identical : JobRow → JobSubmission → Bool
is_identical row value =
    row.correlation_id == value.correlation_id
    && row.job_type == value.job_type
    && same_text row.payload value.payload
    && same_text row.payload_reference value.payload_reference
    && row.scheduled_at == value.scheduled_at
    && row.max_attempts == value.max_attempts

-- The insertion of a new job with its two events, before the commit.
unfoldable pub insert_submission : SchedulerService → JobSubmission → Time → Database → Database
unfolding submitted_row add_event submission_fields
insert_submission service value now db =
    add_event service job_scheduler_submission_requested value.job_id now (submission_fields value)
      (add_event service job_created value.job_id now (submission_fields value)
        (record db { jobs = insert value.job_id (submitted_row value now) db.jobs }))

unfoldable pub submit_existing :
    Option JobRow
    → SchedulerService
    → (Checkpoint → Bool)
    → JobSubmission
    → Time
    → Database
    → Transaction SubmissionDecision
submit_existing (some row) service fault value now db =
    (db, ok (if is_identical row value then identical else conflict))
submit_existing none service fault value now db =
    if fault scheduler_before_commit
    then (db, raised (synthetic_fault scheduler_before_commit))
    else if fault scheduler_after_commit
    then (insert_submission service value now db, raised (synthetic_fault scheduler_after_commit))
    else (insert_submission service value now db, ok SubmissionDecision.created)

unfoldable pub submit_checked :
    SchedulerService
    → (Checkpoint → Bool)
    → JobSubmission
    → Time
    → Database
    → Transaction SubmissionDecision
unfolding submit_existing insert_submission is_identical
submit_checked service fault value now db =
    submit_existing (lookup value.job_id db.jobs) service fault value now db

abbrev is_created : SubmissionDecision → Bool
is_created SubmissionDecision.created = true
is_created _ = false

-- `submit`.
unfoldable pub submit :
    SchedulerService → (Checkpoint → Bool) → JobSubmission → Time → Database → Transaction Bool
unfolding submit_checked
submit service fault value now db =
    let (next, decision) = submit_checked service fault value now db in
    (next, bind decision λ d. ok (is_created d))

-- `start`.
unfoldable pub start : SchedulerService → ClaimedJob → Time → Database → Transaction (Unit {0})
unfolding fenced_update start_row update_attempt add_job_event
start service job now db = commit db (
    bind (fenced_update job now (start_row now) db) λ next. ok (
      add_job_event service job job_execution_started now (λ event. event)
          (record next {
            attempts =
                update_attempt job.job_id job.attempt_number
                  (λ row. record row { started_at = some now }) next.attempts;
          }),
      tt,
    ))

-- `heartbeat`: the new end of the lease.
unfoldable pub heartbeat : SchedulerService → ClaimedJob → Time → Database → Transaction Time
unfolding fenced_update heartbeat_row
heartbeat service job now db = commit db (
    bind (fenced_update job now (heartbeat_row service.claim_lease_seconds now) db)
      λ next. ok (next, now + seconds service.claim_lease_seconds))

-- `succeed`, with the JSON text of the summary.
unfoldable pub succeed :
    SchedulerService → ClaimedJob → String → Time → Database → Transaction (Unit {0})
unfolding fenced_update succeed_row update_attempt add_job_event
succeed service job summary now db = commit db (
    bind (fenced_update job now (succeed_row now) db) λ next. ok (
      add_job_event service job job_execution_succeeded now
          (λ event. record event { result_code = some "SUCCESS" })
          (record next {
            attempts =
                update_attempt job.job_id job.attempt_number
                  (λ row. record row {
                    completed_at = some now;
                    outcome = some Outcome.succeeded;
                    result_summary = some summary;
                  })
                  next.attempts;
          }),
      tt,
    ))

-- `failure.retryable and job.attempt_number < job.max_attempts`.
abbrev pub retries : ClaimedJob → HandlerError → Bool
retries job failure = failure.retryable && ltb job.attempt_number job.max_attempts

-- The status after a failure.
abbrev pub failed_status : ClaimedJob → HandlerError → JobStatus
failed_status job failure =
    if retries job failure
    then retry_wait
    else if failure.retryable
    then JobStatus.retries_exhausted
    else JobStatus.failed

-- The events of a failure, in the order in which they are written.
unfoldable pub add_failure_events :
    SchedulerService → ClaimedJob → HandlerError → Time → Time → Database → Database
unfolding add_job_event
add_failure_events service job failure available completed db =
    let failed =
      add_job_event service job job_execution_failed completed
        (λ event. record event {
          retryable = some failure.retryable;
          error_code = some failure.code;
        })
        db in
    if retries job failure
    then add_job_event service job job_retry_acknowledged completed
        (λ event. record event { retryable = some true; next_retry_at = some available })
        (add_job_event service job job_retry_requested completed
          (λ event. record event { retryable = some true }) failed)
    else if failure.retryable
    then add_job_event service job job_retries_exhausted completed
        (λ event. record event { retryable = some false }) failed
    else failed

-- `available` of `fail`: `now` is the reading of the first statement.
abbrev pub available_after : SchedulerService → ClaimedJob → HandlerError → Time → Time
available_after service job failure now =
    if retries job failure then now + service.retry_delay job.attempt_number else now

-- `fail`: `now` is the reading of its first statement, `completed` that of the update.
unfoldable pub fail :
    SchedulerService → ClaimedJob → HandlerError → Time → Time → Database → Transaction (Unit {0})
unfolding fenced_update release_row update_attempt add_failure_events
fail service job failure now completed db =
    let available = available_after service job failure now in
    commit db (
      bind
        (fenced_update job completed (release_row (failed_status job failure) available completed)
          db)
        λ next. ok (
          add_failure_events service job failure available completed (record next {
            attempts =
                update_attempt job.job_id job.attempt_number
                  (λ row. record row {
                    completed_at = some completed;
                    outcome = some Outcome.failed;
                    retryable = some failure.retryable;
                    error_code = some failure.code;
                    next_retry_at = if retries job failure then some available else none;
                  })
                  next.attempts;
          }),
          tt,
        ))

-- ===== src/Reducer/Terminal.antt =====
-- How a terminal status is left: proofs over the handlers of src/job_visibility/engine.py.
use job_scheduling_simulatio.Prelude.{◌≡◌, ◌≢◌, ◌⊎◌, true}
use job_scheduling_simulatio.Model.{
  EventType, Status, JobVisibility, job_execution_started, job_execution_succeeded,
  job_execution_failed, job_retries_exhausted, retry_pending, retries_exhausted, cancelled,
}

-- The status that an event of kind `k` may give to a job of terminal status `s`, and the violations
-- that the job then reports.
abbrev pub TerminalMove : EventType → JobVisibility → JobVisibility → Type 0
TerminalMove job_execution_started job next =
    (next.recorded_status ≡ job.recorded_status)
    ⊎ ((job.recorded_status ≢ Status.succeeded)
        × (next.recorded_status ≡ Status.running)
        × (job.recorded_status ≡ cancelled → next.cancellation_violation ≡ true)
        × (job.recorded_status ≡ retries_exhausted → next.retries_exhausted_violation ≡ true))
TerminalMove job_execution_succeeded job next =
    (next.recorded_status ≡ job.recorded_status)
    ⊎ ((job.recorded_status ≡ cancelled)
        × (next.recorded_status ≡ Status.succeeded)
        × (next.cancellation_violation ≡ true))
TerminalMove job_execution_failed job next =
    (next.recorded_status ≡ job.recorded_status)
    ⊎ ((job.recorded_status ≡ cancelled)
        × ((next.recorded_status ≡ Status.failed) ⊎ (next.recorded_status ≡ retry_pending)))
TerminalMove job_retries_exhausted job next =
    (next.recorded_status ≡ job.recorded_status)
    ⊎ ((job.recorded_status ≢ Status.succeeded) × (next.recorded_status ≡ retries_exhausted))
TerminalMove _ job next = next.recorded_status ≡ job.recorded_status

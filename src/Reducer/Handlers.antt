-- ===== src/Reducer/Handlers.antt =====
-- The `_on_…` handlers of `VisibilityEngine` (src/job_visibility/engine.py). A handler returns the
-- changed job, whether the event counts as applied, and the reason that it reports.
use job_scheduling_simulatio.Prelude.{
  String, Bool, true, false, not, ◌&&◌, ◌||◌, Option, none, some, if◌then◌else◌, is_some, or_else,
}
use job_scheduling_simulatio.Model.{
  Status, is_terminal, is_in_progress, is_succeeded, is_failed, is_running, is_cancelled,
  is_retries_exhausted, is_awaiting_execution, is_unknown, Event, AttemptStatus,
  is_attempt_succeeded, is_attempt_failed, is_attempt_unknown, Attempt, JobVisibility,
  pending_submission, scheduled, awaiting_execution, retry_pending, retry_scheduled,
  retries_exhausted, cancelled, retrieved, scheduler_ack_timeout, retry_ack_timeout,
  executed_after_cancel, execution_after_retry_exhaustion,
}
use job_scheduling_simulatio.Reducer.Rules.{
  Findings, earliest, latest, text_or, observe, resolve, with_attempt, attempt_of, store_attempt,
  terminal_conflict,
}

abbrev pub Handled : Type 0
Handled = JobVisibility × Bool × Option String

unfoldable pub on_job_created : JobVisibility → Event → Handled
on_job_created job event = (
  record job {
    created_at = earliest job.created_at (some event.event_time);
    recorded_status =
        if is_unknown job.recorded_status then Status.created else job.recorded_status;
  },
  true,
  none,
)

unfoldable pub on_job_scheduler_submission_requested : JobVisibility → Event → Handled
on_job_scheduler_submission_requested job event = (
  record job {
    submission_requested_at = earliest job.submission_requested_at (some event.event_time);
    recorded_status =
        if not (is_terminal job.recorded_status) && not (is_in_progress job.recorded_status)
        then pending_submission
        else job.recorded_status;
  },
  true,
  none,
)

unfoldable pub on_job_scheduler_submission_acknowledged : JobVisibility → Event → Handled
on_job_scheduler_submission_acknowledged job event = (
  record job {
    scheduler_acknowledged_at = earliest job.scheduler_acknowledged_at (some event.event_time);
    recorded_status =
        if not (is_terminal job.recorded_status)
          && not (is_in_progress job.recorded_status || is_awaiting_execution job.recorded_status)
        then scheduled
        else job.recorded_status;
    findings = resolve job.findings scheduler_ack_timeout event.ingestion_time;
  },
  true,
  none,
)

unfoldable pub on_job_scheduler_submission_failed : JobVisibility → Event → Handled
on_job_scheduler_submission_failed job event =
    if is_terminal job.recorded_status then (job, false, some "terminal state preserved") else (
      record job {
        recorded_status = Status.failed;
        completed_at = latest job.completed_at (some event.event_time);
      },
      true,
      none,
    )

unfoldable pub on_job_scheduler_item_retrieved : JobVisibility → Event → Handled
unfolding with_attempt attempt_of store_attempt
on_job_scheduler_item_retrieved job₀ event =
    let job = with_attempt job₀ event in
    let attempt = attempt_of job₀ event in
    let retrieved_at = or_else event.poll_time (some event.event_time) in
    (
      store_attempt
          (record job {
            scheduler_retrieved_at = earliest job.scheduler_retrieved_at retrieved_at;
            recorded_status =
                if not (is_terminal job.recorded_status) && not (is_running job.recorded_status)
                then awaiting_execution
                else job.recorded_status;
          })
          event
          (record attempt {
            retrieved_at = earliest attempt.retrieved_at retrieved_at;
            status = if is_attempt_unknown attempt.status then retrieved else attempt.status;
          }),
      true,
      none,
    )

-- The findings of a start that comes after a cancellation or an exhaustion.
start_findings : JobVisibility → Event → Findings
start_findings job event =
    if is_cancelled job.recorded_status
    then observe job.findings executed_after_cancel event.ingestion_time
        "Execution was observed after cancellation."
    else if is_retries_exhausted job.recorded_status
    then observe job.findings execution_after_retry_exhaustion event.ingestion_time
        "Execution was observed after retries were exhausted."
    else job.findings

-- The job and its attempt with the start backfilled, before the tests for preserved outcomes.
backfill_job : JobVisibility → Event → JobVisibility
unfolding with_attempt attempt_of
backfill_job job event = record (with_attempt job event) {
  incomplete_lifecycle =
      (with_attempt job event).incomplete_lifecycle
      || not (is_some (attempt_of job event).retrieved_at);
  started_at = earliest job.started_at (some event.event_time);
}

backfill_attempt : JobVisibility → Event → Attempt
unfolding attempt_of
backfill_attempt job event = record (attempt_of job event) {
  started_at = earliest (attempt_of job event).started_at (some event.event_time);
}

run_attempt : JobVisibility → Event → Attempt → JobVisibility
unfolding start_findings store_attempt
run_attempt job event attempt =
    store_attempt
      (record job {
        cancellation_violation = job.cancellation_violation || is_cancelled job.recorded_status;
        retries_exhausted_violation =
            job.retries_exhausted_violation || is_retries_exhausted job.recorded_status;
        findings = start_findings job event;
        recorded_status = Status.running;
      })
      event (record attempt { status = AttemptStatus.running })

unfoldable pub on_job_execution_started : JobVisibility → Event → Handled
unfolding backfill_job backfill_attempt run_attempt store_attempt
on_job_execution_started job₀ event =
    let job = backfill_job job₀ event in
    let attempt = backfill_attempt job₀ event in
    if is_attempt_succeeded attempt.status || is_succeeded job.recorded_status
    then (
      store_attempt job event attempt,
      true,
      some "startedAt backfilled; successful terminal state preserved",
    )
    else if is_attempt_failed attempt.status && is_failed job.recorded_status
    then (
      store_attempt job event attempt,
      true,
      some "startedAt backfilled; failed terminal state preserved",
    )
    else (run_attempt job event attempt, true, none)

-- The job and its attempt after a success that conflicts with nothing.
succeed_job : JobVisibility → Event → Attempt → JobVisibility
unfolding store_attempt
succeed_job job event attempt =
    store_attempt
      (record job {
        incomplete_lifecycle = job.incomplete_lifecycle || not (is_some attempt.started_at);
        cancellation_violation = job.cancellation_violation || is_cancelled job.recorded_status;
        findings =
            if is_cancelled job.recorded_status
            then observe job.findings executed_after_cancel event.ingestion_time
                "Successful execution was observed after cancellation."
            else job.findings;
        completed_at = latest job.completed_at (some event.event_time);
        recorded_status = Status.succeeded;
        retry_eligible = false;
        next_retry_at = none;
      })
      event
      (record attempt {
        status = AttemptStatus.succeeded;
        completed_at = latest attempt.completed_at (some event.event_time);
        result_code = some (text_or event.result_code "SUCCESS");
      })

unfoldable pub on_job_execution_succeeded : JobVisibility → Event → Handled
unfolding with_attempt attempt_of store_attempt succeed_job terminal_conflict
on_job_execution_succeeded job₀ event =
    let job = with_attempt job₀ event in
    let attempt = attempt_of job₀ event in
    if is_attempt_failed attempt.status
      || is_terminal job.recorded_status
        && not (is_succeeded job.recorded_status || is_cancelled job.recorded_status)
    then (
      store_attempt (terminal_conflict job event) event attempt,
      true,
      some "conflicting terminal outcome retained; prior terminal state preserved",
    )
    else (succeed_job job event attempt, true, none)

-- `bool(event.retryable)`.
abbrev pub is_retryable : Event → Bool
is_retryable event = elim event.retryable [ none ↦ false | some b ↦ b ]

-- The job and its attempt after a failure that conflicts with nothing.
fail_job : JobVisibility → Event → Attempt → JobVisibility
unfolding store_attempt
fail_job job event attempt =
    store_attempt
      (record job {
        incomplete_lifecycle = job.incomplete_lifecycle || not (is_some attempt.started_at);
        completed_at = latest job.completed_at (some event.event_time);
        last_failure_at = latest job.last_failure_at (some event.event_time);
        last_error_code = event.error_code;
        retry_eligible = is_retryable event;
        retry_requested = false;
        retry_acknowledged = false;
        next_retry_at = none;
        recorded_status = if is_retryable event then retry_pending else Status.failed;
      })
      event
      (record attempt {
        status = AttemptStatus.failed;
        completed_at = latest attempt.completed_at (some event.event_time);
        retryable = event.retryable;
        error_code = event.error_code;
      })

unfoldable pub on_job_execution_failed : JobVisibility → Event → Handled
unfolding with_attempt attempt_of store_attempt fail_job terminal_conflict
on_job_execution_failed job₀ event =
    let job = with_attempt job₀ event in
    let attempt = attempt_of job₀ event in
    if is_attempt_succeeded attempt.status || is_succeeded job.recorded_status
    then (
      store_attempt (terminal_conflict job event) event attempt,
      true,
      some "conflicting late failure retained; success preserved",
    )
    else if is_terminal job.recorded_status && not (is_cancelled job.recorded_status)
    then (
      store_attempt (terminal_conflict job event) event attempt,
      true,
      some "terminal state preserved",
    )
    else (fail_job job event attempt, true, none)

unfoldable pub on_job_retry_requested : JobVisibility → Event → Handled
on_job_retry_requested job event =
    if is_terminal job.recorded_status then (job, false, some "terminal state preserved") else (
      record job {
        retry_requested = true;
        retry_acknowledged = false;
        retry_requested_at = latest job.retry_requested_at (some event.event_time);
        next_retry_at = none;
        recorded_status = retry_pending;
      },
      true,
      none,
    )

unfoldable pub on_job_retry_acknowledged : JobVisibility → Event → Handled
on_job_retry_acknowledged job event = (
  record job {
    retry_requested = true;
    retry_acknowledged = true;
    next_retry_at = or_else event.next_retry_at job.next_retry_at;
    findings = resolve job.findings retry_ack_timeout event.ingestion_time;
    recorded_status =
        if not (is_terminal job.recorded_status) && not (is_running job.recorded_status)
        then retry_scheduled
        else job.recorded_status;
  },
  true,
  none,
)

unfoldable pub on_job_retry_rejected : JobVisibility → Event → Handled
on_job_retry_rejected job event =
    if is_terminal job.recorded_status then (job, false, some "terminal state preserved") else (
      record job {
        retry_requested = true;
        retry_acknowledged = false;
        retry_eligible = false;
        next_retry_at = none;
        recorded_status = Status.failed;
      },
      true,
      none,
    )

unfoldable pub on_job_retries_exhausted : JobVisibility → Event → Handled
on_job_retries_exhausted job event =
    if is_succeeded job.recorded_status
    then (job, false, some "successful terminal state preserved")
    else (
      record job {
        recorded_status = retries_exhausted;
        retry_eligible = false;
        retry_acknowledged = false;
        next_retry_at = none;
        completed_at = latest job.completed_at (some event.event_time);
      },
      true,
      none,
    )

unfoldable pub on_job_cancelled : JobVisibility → Event → Handled
on_job_cancelled job event =
    if is_terminal job.recorded_status
    then (job, false, some "existing terminal state preserved")
    else (
      record job {
        recorded_status = cancelled;
        completed_at = latest job.completed_at (some event.event_time);
      },
      true,
      none,
    )

-- ===== src/Reducer/Reduce.antt =====
-- `_project` and `reduce_visibility` of src/job_visibility/engine.py.
use job_scheduling_simulatio.Prelude.{
  ◌+◌, max, Option, none, some, [], ◌∷◌, ◌++◌, if◌then◌else◌, or_else, ◌==◌, nat_key, text_key,
  Result, ok, raised,
}
use job_scheduling_simulatio.Model.{
  EventType, Event, Error, ProjectionDecision, JobVisibility, new_job, job_created,
  job_scheduler_submission_requested, job_scheduler_submission_acknowledged,
  job_scheduler_submission_failed, job_scheduler_item_retrieved, job_execution_started,
  job_execution_succeeded, job_execution_failed, job_retry_requested, job_retry_acknowledged,
  job_retry_rejected, job_retries_exhausted, job_cancelled, value_error, applied, ignored,
  semantic_duplicate,
}
use job_scheduling_simulatio.Reducer.Handlers.{
  Handled, on_job_created, on_job_scheduler_submission_requested,
  on_job_scheduler_submission_acknowledged, on_job_scheduler_submission_failed,
  on_job_scheduler_item_retrieved, on_job_execution_started, on_job_execution_succeeded,
  on_job_execution_failed, on_job_retry_requested, on_job_retry_acknowledged, on_job_retry_rejected,
  on_job_retries_exhausted, on_job_cancelled,
}
use job_scheduling_simulatio.Reducer.Rules.{latest, text_or, is_semantic_duplicate}

-- The dispatch on the name of the event type.
unfoldable pub handle : EventType → JobVisibility → Event → Handled
unfolding on_job_created on_job_scheduler_submission_requested
    on_job_scheduler_submission_acknowledged on_job_scheduler_submission_failed
    on_job_scheduler_item_retrieved on_job_execution_started on_job_execution_succeeded
    on_job_execution_failed on_job_retry_requested on_job_retry_acknowledged on_job_retry_rejected
    on_job_retries_exhausted on_job_cancelled
handle job_created = on_job_created
handle job_scheduler_submission_requested = on_job_scheduler_submission_requested
handle job_scheduler_submission_acknowledged = on_job_scheduler_submission_acknowledged
handle job_scheduler_submission_failed = on_job_scheduler_submission_failed
handle job_scheduler_item_retrieved = on_job_scheduler_item_retrieved
handle job_execution_started = on_job_execution_started
handle job_execution_succeeded = on_job_execution_succeeded
handle job_execution_failed = on_job_execution_failed
handle job_retry_requested = on_job_retry_requested
handle job_retry_acknowledged = on_job_retry_acknowledged
handle job_retry_rejected = on_job_retry_rejected
handle job_retries_exhausted = on_job_retries_exhausted
handle job_cancelled = on_job_cancelled

-- What every projected event does to the job before its handler.
unfoldable pub absorb : JobVisibility → Event → JobVisibility
absorb job event = record job {
  correlation_id = if job.correlation_id == "" then event.correlation_id else job.correlation_id;
  job_type = if event.job_type == "" then job.job_type else event.job_type;
  max_attempts = max job.max_attempts event.max_attempts;
  scheduled_at = or_else job.scheduled_at event.scheduled_at;
  scheduler_reference =
      if text_or event.scheduler_reference "" == ""
      then job.scheduler_reference
      else event.scheduler_reference;
}

unfoldable pub project : JobVisibility → Event → Handled
unfolding absorb handle
project job event = handle event.event_type (absorb job event) event

-- The new job and the decision, before the decision is recorded.
unfoldable pub decide : JobVisibility → Event → JobVisibility × ProjectionDecision
decide job event =
    if is_semantic_duplicate job event
    then (
      job,
      record {
        event_id = event.event_id;
        decision = semantic_duplicate;
        reason = some "same outcome already observed for job attempt";
      },
    )
    else let (next, changed, reason) = project job event in
      (
        record next { version = if changed then next.version + 1 else next.version },
        record {
          event_id = event.event_id;
          decision = if changed then applied else ignored;
          reason = reason;
        },
      )

-- The decision and the times of the event are recorded, whatever was decided.
unfoldable pub record_decision :
    Event → JobVisibility × ProjectionDecision → JobVisibility × ProjectionDecision
record_decision event (job, decision) = (
  record job {
    decisions = job.decisions ++ decision ∷ [];
    last_event_time = latest job.last_event_time (some event.event_time);
    data_as_of = latest job.data_as_of (some event.ingestion_time);
  },
  decision,
)

abbrev pub job_or_new : Option JobVisibility → Event → JobVisibility
job_or_new none event = new_job event.job_id
job_or_new (some job) event = job

-- The new job and the decision, or the error of a job that the event is not about.
unfoldable pub reduce_visibility :
    Option JobVisibility → Event → Result Error (JobVisibility × ProjectionDecision)
reduce_visibility current event =
    let job = job_or_new current event in
    if job.job_id == event.job_id
    then ok (record_decision event (decide job event))
    else raised value_error

-- ===== src/Engine/View.antt =====
-- What `VisibilityEngine` answers (src/job_visibility/engine.py): `get`, `attempts`, `search`,
-- `snapshot`, and the derived status and delays of `_response`. The times of a response are numbers
-- here, where `iso` writes them as text.
use job_scheduling_simulatio.Prelude.{
  ℕ, ◌+◌, String, Bool, true, false, ◌&&◌, ◌||◌, Option, none, some, List, [], ◌∷◌, sort, ltb, leb,
  text_le, if◌then◌else◌, is_some, ◌==◌, nat_key, text_key, select, lookup, values, keys, Result,
  ok, raised,
}
use job_scheduling_simulatio.Model.{
  Status, DelayClassification, is_terminal, is_in_progress, is_waiting, is_overdue_status,
  status_eq, Time, seconds, whole_seconds, Error, Attempt, code_key, Finding, JobVisibility,
  completed_attempts, next_attempt_number, VisibilityConfig, awaiting_execution, overdue,
  not_yet_eligible, awaiting_poll_window, possible_batch_backlog, retrieved_awaiting_worker,
  execution_overdue, job_not_found,
}
use job_scheduling_simulatio.Engine.Reconcile.{elapsed, is_overdue}
use job_scheduling_simulatio.Engine.Store.{VisibilityEngine}

-- `now >= scheduled_at`.
abbrev pub has_come : Option Time → Time → Bool
has_come none now = false
has_come (some scheduled_at) now = leb scheduled_at now

unfoldable pub derived_status : VisibilityConfig → JobVisibility → Time → Status
derived_status config job now =
    if is_terminal job.recorded_status || is_in_progress job.recorded_status
    then job.recorded_status
    else if is_waiting job.recorded_status && is_some job.scheduled_at
    then if is_overdue config job now
      then overdue
      else if has_come job.scheduled_at now
      then awaiting_execution
      else job.recorded_status
    else job.recorded_status

unfoldable pub delay_classification :
    VisibilityConfig → JobVisibility → Time → Status → Option DelayClassification
delay_classification config job now status = elim job.scheduled_at [
  | none ↦ none
  | some scheduled_at ↦
      if is_some job.started_at
      then none
      else if ltb now scheduled_at
      then some not_yet_eligible
      else if is_overdue_status status
      then some execution_overdue
      else if is_some job.scheduler_retrieved_at
      then some retrieved_awaiting_worker
      else if ltb now (scheduled_at + seconds config.poll_interval_seconds)
      then some awaiting_poll_window
      else some possible_batch_backlog
]

unfoldable pub overdue_duration : VisibilityConfig → JobVisibility → Time → ℕ
overdue_duration config job now = elim job.scheduled_at [
  | none ↦ 0
  | some scheduled_at ↦
      if is_overdue config job now
      then whole_seconds now (scheduled_at + seconds config.grace_period_seconds)
      else 0
]

-- `max(0, int(((job.started_at or now) - since).total_seconds()))`, if there is a `since`.
abbrev pub delay_since : Option Time → Option Time → Time → Option ℕ
delay_since none started_at now = none
delay_since (some since) none now = some (whole_seconds now since)
delay_since (some since) (some start) now = some (whole_seconds start since)

abbrev pub processing_delay : Option Time → Option Time → Option ℕ
processing_delay (some as_of) (some last) = some (whole_seconds as_of last)
processing_delay _ _ = none

pub record RetryView : Type 0 where
  pub completed_attempts : ℕ
  pub next_attempt_number : Option ℕ
  pub max_attempts : ℕ
  pub eligible : Bool
  pub requested : Bool
  pub scheduler_acknowledged : Bool
  pub last_failure_at : Option Time
  pub last_error_code : Option String
  pub next_retry_at : Option Time

pub record DelayView : Type 0 where
  pub classification : Option DelayClassification
  pub start_delay_seconds : Option ℕ
  pub post_retrieval_delay_seconds : Option ℕ
  pub overdue_duration_seconds : ℕ

pub record Freshness : Type 0 where
  pub data_as_of : Option Time
  pub processing_delay_seconds : Option ℕ
  pub possibly_stale : Bool

pub record Response : Type 0 where
  pub job_id : String
  pub correlation_id : String
  pub job_type : String
  pub status : Status
  pub recorded_status : Status
  pub created_at : Option Time
  pub submission_requested_at : Option Time
  pub scheduler_acknowledged_at : Option Time
  pub scheduled_at : Option Time
  pub scheduler_retrieved_at : Option Time
  pub started_at : Option Time
  pub completed_at : Option Time
  pub scheduler_reference : Option String
  pub retry : RetryView
  pub delay : DelayView
  pub incomplete_lifecycle : Bool
  pub cancellation_violation : Bool
  pub retries_exhausted_violation : Bool
  pub freshness : Freshness
  pub data_as_of : Option Time
  pub version : ℕ
  pub reconciliation_findings : List Finding

unfoldable pub response : VisibilityConfig → JobVisibility → Time → Response
unfolding derived_status delay_classification overdue_duration
response config job now = record {
  job_id = job.job_id;
  correlation_id = job.correlation_id;
  job_type = job.job_type;
  status = derived_status config job now;
  recorded_status = job.recorded_status;
  created_at = job.created_at;
  submission_requested_at = job.submission_requested_at;
  scheduler_acknowledged_at = job.scheduler_acknowledged_at;
  scheduled_at = job.scheduled_at;
  scheduler_retrieved_at = job.scheduler_retrieved_at;
  started_at = job.started_at;
  completed_at = job.completed_at;
  scheduler_reference = job.scheduler_reference;
  retry = record {
    completed_attempts = completed_attempts job;
    next_attempt_number = next_attempt_number job;
    max_attempts = job.max_attempts;
    eligible = job.retry_eligible;
    requested = job.retry_requested;
    scheduler_acknowledged = job.retry_acknowledged;
    last_failure_at = job.last_failure_at;
    last_error_code = job.last_error_code;
    next_retry_at = job.next_retry_at;
  };
  delay = record {
    classification = delay_classification config job now (derived_status config job now);
    start_delay_seconds = delay_since job.scheduled_at job.started_at now;
    post_retrieval_delay_seconds = delay_since job.scheduler_retrieved_at job.started_at now;
    overdue_duration_seconds = overdue_duration config job now;
  };
  incomplete_lifecycle = job.incomplete_lifecycle;
  cancellation_violation = job.cancellation_violation;
  retries_exhausted_violation = job.retries_exhausted_violation;
  freshness = record {
    data_as_of = job.data_as_of;
    processing_delay_seconds = processing_delay job.data_as_of job.last_event_time;
    possibly_stale = elapsed job.data_as_of now config.eventual_consistency_target_seconds;
  };
  data_as_of = job.data_as_of;
  version = job.version;
  reconciliation_findings = values job.findings;
}

abbrev pub found {ℓ} :
    {A : Type ℓ} → String → (JobVisibility → A) → Option JobVisibility → Result Error A
found job_id f none = raised (job_not_found job_id)
found job_id f (some job) = ok (f job)

unfoldable pub get_job : VisibilityEngine → String → Time → Result Error Response
unfolding response
get_job engine job_id now =
    found job_id (λ job. response engine.config job now) (lookup job_id engine.jobs)

unfoldable pub snapshot : VisibilityEngine → String → Result Error JobVisibility
snapshot engine job_id = found job_id (λ job. job) (lookup job_id engine.jobs)

abbrev attempt_le : ℕ × Attempt → ℕ × Attempt → Bool
attempt_le a b = leb a.0 b.0

-- The attempts of a job in the order of their numbers.
unfoldable pub job_attempts : VisibilityEngine → String → Result Error (List Attempt)
job_attempts engine job_id =
    found job_id (λ job. values (sort attempt_le job.attempts)) (lookup job_id engine.jobs)

unfoldable pub job_ids : VisibilityEngine → List String
job_ids engine = sort text_le (keys engine.jobs)

-- A filter that is not given, or is empty, lets every job through.
abbrev pub status_filter : Option Status → Response → Bool
status_filter none item = true
status_filter (some status) item = status_eq item.status status

abbrev pub correlation_filter : Option String → Response → Bool
correlation_filter none item = true
correlation_filter (some id) item = id == "" || item.correlation_id == id

abbrev at_or_after : Time → Option Time → Bool
at_or_after bound none = false
at_or_after bound (some scheduled_at) = leb bound scheduled_at

abbrev at_or_before : Time → Option Time → Bool
at_or_before bound none = false
at_or_before bound (some scheduled_at) = leb scheduled_at bound

abbrev pub from_filter : Option Time → Response → Bool
from_filter none item = true
from_filter (some bound) item = at_or_after bound item.scheduled_at

abbrev pub to_filter : Option Time → Response → Bool
to_filter none item = true
to_filter (some bound) item = at_or_before bound item.scheduled_at

-- The jobs of the engine in the order of their ids.
responses : VisibilityEngine → Time → List String → List Response
unfolding get_job
responses engine now [] = []
responses engine now (id ∷ ids) = elim (get_job engine id now) [
  | ok item ↦ item ∷ responses engine now ids
  | raised error ↦ responses engine now ids
]

unfoldable pub search_jobs :
    VisibilityEngine
    → Time
    → Option Status
    → Option String
    → Option Time
    → Option Time
    → List Response
unfolding responses job_ids
search_jobs engine now status correlation_id scheduled_from scheduled_to =
    select (to_filter scheduled_to) (
      select (from_filter scheduled_from) (
        select (correlation_filter correlation_id)
          (select (status_filter status) (responses engine now (job_ids engine)))))

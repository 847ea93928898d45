-- ===== src/Model/Jobs.antt =====
-- `Attempt`, `Finding`, `ProjectionDecision`, `JobVisibility` and `VisibilityConfig` of
-- src/job_visibility/model.py. The literals that the program writes into the `status` of an
-- attempt, the `code` of a finding and the `decision` of a projection are data types here.
use Prim.Native.Nat.{max}
use job_scheduling_simulatio.Prelude.{
  ℕ, ◌+◌, ◌≡◌, ◌↔◌, String, Option, none, some, Bool, true, false, not, ◌&&◌, ◌||◌, List, [], ◌∷◌,
  Dict, Key, nat_eq, values, is_some, count, arith, if◌then◌else◌,
}
use job_scheduling_simulatio.Model.Statuses.{Status, is_terminal}
use job_scheduling_simulatio.Model.Events.{Time}

pub data AttemptStatus : Type 0 where
  unknown retrieved running succeeded failed : AttemptStatus

abbrev pub is_attempt_succeeded : AttemptStatus → Bool
is_attempt_succeeded succeeded = true
is_attempt_succeeded _ = false

abbrev pub is_attempt_failed : AttemptStatus → Bool
is_attempt_failed failed = true
is_attempt_failed _ = false

abbrev pub is_attempt_unknown : AttemptStatus → Bool
is_attempt_unknown unknown = true
is_attempt_unknown _ = false

pub record Attempt : Type 0 where
  pub attempt_number : ℕ
  pub status : AttemptStatus
  pub retrieved_at : Option Time
  pub started_at : Option Time
  pub completed_at : Option Time
  pub retryable : Option Bool
  pub error_code : Option String
  pub result_code : Option String

-- `Attempt(attempt_number=number)`.
abbrev pub new_attempt : ℕ → Attempt
new_attempt number = record {
  attempt_number = number;
  status = unknown;
  retrieved_at = none;
  started_at = none;
  completed_at = none;
  retryable = none;
  error_code = none;
  result_code = none;
}

pub data FindingCode : Type 0 where
  scheduler_ack_timeout running_timeout retry_ack_timeout execution_start_overdue : FindingCode
  attempt_sequence_gap executed_after_cancel execution_after_retry_exhaustion : FindingCode
  conflicting_terminal_outcome : FindingCode

abbrev code_rank : FindingCode → ℕ
code_rank scheduler_ack_timeout = 0
code_rank running_timeout = 1
code_rank retry_ack_timeout = 2
code_rank execution_start_overdue = 3
code_rank attempt_sequence_gap = 4
code_rank executed_after_cancel = 5
code_rank execution_after_retry_exhaustion = 6
code_rank conflicting_terminal_outcome = 7

abbrev code_eq : FindingCode → FindingCode → Bool
code_eq a b = nat_eq (code_rank a) (code_rank b)

pub code_eq_iff : (a b : FindingCode) → (code_eq a b ≡ true) ↔ (a ≡ b)
code_eq_iff a b = ground arith

instance abbrev pub code_key : Key FindingCode
code_key = record { same = code_eq; same_iff = code_eq_iff }

pub record Finding : Type 0 where
  pub code : FindingCode
  pub first_observed_at : Time
  pub message : String
  pub active : Bool
  pub resolved_at : Option Time

pub data Decision : Type 0 where
  applied ignored semantic_duplicate exact_duplicate : Decision

pub record ProjectionDecision : Type 0 where
  pub event_id : String
  pub decision : Decision
  pub reason : Option String

pub record JobVisibility : Type 0 where
  pub job_id : String
  pub correlation_id : String
  pub job_type : String
  pub recorded_status : Status
  pub created_at : Option Time
  pub submission_requested_at : Option Time
  pub scheduler_acknowledged_at : Option Time
  pub scheduled_at : Option Time
  pub scheduler_retrieved_at : Option Time
  pub started_at : Option Time
  pub completed_at : Option Time
  pub scheduler_reference : Option String
  pub max_attempts : ℕ
  pub next_retry_at : Option Time
  pub last_failure_at : Option Time
  pub last_error_code : Option String
  pub retry_requested : Bool
  pub retry_acknowledged : Bool
  pub retry_eligible : Bool
  pub retry_requested_at : Option Time
  pub cancellation_violation : Bool
  pub retries_exhausted_violation : Bool
  pub incomplete_lifecycle : Bool
  pub last_event_time : Option Time
  pub data_as_of : Option Time
  pub version : ℕ
  pub attempts : Dict ℕ Attempt
  pub findings : Dict FindingCode Finding
  pub decisions : List ProjectionDecision

-- `JobVisibility(job_id=job_id)`.
abbrev pub new_job : String → JobVisibility
new_job job_id = record {
  job_id = job_id;
  correlation_id = "";
  job_type = "GENERIC";
  recorded_status = Status.unknown;
  created_at = none;
  submission_requested_at = none;
  scheduler_acknowledged_at = none;
  scheduled_at = none;
  scheduler_retrieved_at = none;
  started_at = none;
  completed_at = none;
  scheduler_reference = none;
  max_attempts = 3;
  next_retry_at = none;
  last_failure_at = none;
  last_error_code = none;
  retry_requested = false;
  retry_acknowledged = false;
  retry_eligible = false;
  retry_requested_at = none;
  cancellation_violation = false;
  retries_exhausted_violation = false;
  incomplete_lifecycle = false;
  last_event_time = none;
  data_as_of = none;
  version = 0;
  attempts = [];
  findings = [];
  decisions = [];
}

abbrev pub is_completed : Attempt → Bool
is_completed a = is_attempt_succeeded a.status || is_attempt_failed a.status

unfoldable pub completed_attempts : JobVisibility → ℕ
completed_attempts job = count is_completed (values job.attempts)

-- `max(attempts, default=0)`.
unfoldable pub max_attempt : Dict ℕ Attempt → ℕ
max_attempt [] = 0
max_attempt ((n, a) ∷ rest) = max n (max_attempt rest)

unfoldable pub next_attempt_number : JobVisibility → Option ℕ
unfolding max_attempt
next_attempt_number job =
    if is_terminal job.recorded_status && not job.retry_acknowledged
    then none
    else if is_some job.next_retry_at || job.retry_requested
    then some (max_attempt job.attempts + 1)
    else none

pub record VisibilityConfig : Type 0 where
  pub poll_interval_seconds : ℕ
  pub max_items_per_poll : ℕ
  pub worker_capacity : ℕ
  pub grace_period_seconds : ℕ
  pub running_timeout_seconds : ℕ
  pub retry_acknowledgement_timeout_seconds : ℕ
  pub submission_acknowledgement_timeout_seconds : ℕ
  pub eventual_consistency_target_seconds : ℕ

-- `VisibilityConfig()`.
abbrev pub default_config : VisibilityConfig
default_config = record {
  poll_interval_seconds = 60;
  max_items_per_poll = 100;
  worker_capacity = 20;
  grace_period_seconds = 600;
  running_timeout_seconds = 1800;
  retry_acknowledgement_timeout_seconds = 120;
  submission_acknowledgement_timeout_seconds = 120;
  eventual_consistency_target_seconds = 10;
}

pub record PollRecord : Type 0 where
  pub poll_id : String
  pub poll_time : Time
  pub eligible_count : ℕ
  pub retrieved_job_ids : List String
  pub batch_limit : ℕ

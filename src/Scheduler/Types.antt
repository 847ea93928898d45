-- ===== src/Scheduler/Types.antt =====
-- src/job_visibility/scheduler/models.py, the checkpoints of src/job_visibility/chaos/model.py, and
-- the rows of the tables that src/job_visibility/scheduler/service.py writes. A JSON document stands
-- for itself by its canonical text, an UUID by its text.
use job_scheduling_simulatio.Prelude.{
  ℕ, ◌^◌, min, String, Bool, true, false, not, ◌||◌, Option, List, ltb, if◌then◌else◌, is_some,
  ◌==◌, nat_key, text_key, Dict, Result, ok, raised,
}
use job_scheduling_simulatio.Model.{Time, seconds, Event, Error, value_error}

-- `JobSubmission`.
pub record JobSubmission : Type 0 where
  pub job_id : String
  pub correlation_id : String
  pub job_type : String
  pub scheduled_at : Time
  pub payload : Option String
  pub payload_reference : Option String
  pub max_attempts : ℕ

abbrev same_bool : Bool → Bool → Bool
same_bool true b = b
same_bool false b = not b

-- `JobSubmission.__post_init__`; a `Time` is aware of its zone.
unfoldable pub check_submission : JobSubmission → Result Error JobSubmission
check_submission value =
    if value.job_id == "" || value.correlation_id == "" || value.job_type == ""
    then raised value_error
    else if ltb value.max_attempts 1
    then raised value_error
    else if same_bool (is_some value.payload) (is_some value.payload_reference)
    then raised value_error
    else ok value

-- `ClaimedJob`.
pub record ClaimedJob : Type 0 where
  pub job_id : String
  pub correlation_id : String
  pub job_type : String
  pub payload : Option String
  pub payload_reference : Option String
  pub scheduled_at : Time
  pub attempt_number : ℕ
  pub max_attempts : ℕ
  pub claimed_by : String
  pub claim_token : String
  pub claim_expires_at : Time

pub data SubmissionDecision : Type 0 where
  created identical conflict : SubmissionDecision

pub data Checkpoint : Type 0 where
  scheduler_before_commit scheduler_after_commit : Checkpoint
  worker_after_claim worker_before_complete : Checkpoint
  publisher_before_send publisher_after_broker_ack : Checkpoint
  projector_before_apply projector_after_apply : Checkpoint
  visibility_before_query : Checkpoint

-- What the scheduler raises: `StaleClaimError`, and the exception of a fault injector.
pub data Failure : Type 0 where
  stale_claim : String → Failure
  synthetic_fault : Checkpoint → Failure

-- The `status` column of `scheduler_jobs`.
pub data JobStatus : Type 0 where
  pending claimed running retry_wait succeeded failed retries_exhausted : JobStatus

-- `status IN ('PENDING', 'RETRY_WAIT')`.
abbrev pub is_claimable : JobStatus → Bool
is_claimable pending = true
is_claimable retry_wait = true
is_claimable _ = false

-- `status IN ('CLAIMED', 'RUNNING')`.
abbrev pub is_held : JobStatus → Bool
is_held claimed = true
is_held running = true
is_held _ = false

-- A row of `scheduler_jobs`.
pub record JobRow : Type 0 where
  pub job_id : String
  pub correlation_id : String
  pub job_type : String
  pub payload : Option String
  pub payload_reference : Option String
  pub scheduled_at : Time
  pub available_at : Time
  pub status : JobStatus
  pub attempt_number : ℕ
  pub max_attempts : ℕ
  pub claimed_by : Option String
  pub claim_token : Option String
  pub claimed_at : Option Time
  pub claim_expires_at : Option Time
  pub created_at : Time
  pub updated_at : Time
  pub version : ℕ

pub data Outcome : Type 0 where
  succeeded failed : Outcome

-- A row of `scheduler_attempts`.
pub record AttemptRow : Type 0 where
  pub job_id : String
  pub attempt_number : ℕ
  pub claim_token : String
  pub claimed_by : String
  pub claimed_at : Time
  pub started_at : Option Time
  pub completed_at : Option Time
  pub outcome : Option Outcome
  pub retryable : Option Bool
  pub error_code : Option String
  pub result_summary : Option String
  pub next_retry_at : Option Time

-- A row of `scheduler_outbox`: the event stands for the payload that `canonical_edr` writes of it.
pub record OutboxRow : Type 0 where
  pub event : Event
  pub topic : String
  pub message_key : String
  pub created_at : Time
  pub published_at : Option Time
  pub publish_attempts : ℕ
  pub last_error : Option String
  pub next_attempt_at : Time
  pub lease_owner : Option String
  pub lease_token : Option String
  pub lease_expires_at : Option Time
  pub kafka_partition : Option ℕ
  pub kafka_offset : Option ℕ

-- The scheduler's database. `drawn` counts the UUIDs that were drawn.
pub record Database : Type 0 where
  pub jobs : Dict String JobRow
  pub attempts : List AttemptRow
  pub outbox : List OutboxRow
  pub drawn : ℕ

-- `SchedulerService.__init__`: its configuration, and the source of UUIDs (`uuid4` and the
-- database's `gen_random_uuid`), the n-th one drawn.
pub record SchedulerService : Type 0 where
  pub topic : String
  pub claim_lease_seconds : ℕ
  pub retry_delay : ℕ → Time
  pub uuid : ℕ → String

-- The default `retry_delay`: `timedelta(seconds=min(300, 2**attempt))`.
unfoldable pub default_retry_delay : ℕ → Time
default_retry_delay n = seconds (min 300 (2 ^ n))

-- `HandlerError`, and `HandlerResult` by the JSON text of its summary.
pub record HandlerError : Type 0 where
  pub code : String
  pub retryable : Bool

-- What a handler does: it returns a summary, or raises `HandlerError` or any other exception.
pub data HandlerOutcome : Type 0 where
  returned : String → HandlerOutcome
  refused : HandlerError → HandlerOutcome
  crashed : HandlerOutcome

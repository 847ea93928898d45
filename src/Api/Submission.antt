-- ===== src/Api/Submission.antt =====
-- `POST /scheduler/jobs` of src/job_visibility/api.py. `size_of` is the number of bytes of a payload's
-- JSON, and `unavailable` says whether the database raises before the submission has an effect.
use job_scheduling_simulatio.Prelude.{
  ℕ, String, Bool, true, false, not, ◌||◌, Option, none, some, ltb, if◌then◌else◌, ◌==◌, nat_key,
  text_key, Result, ok, raised,
}
use job_scheduling_simulatio.Model.{Time, Error}
use job_scheduling_simulatio.Scheduler.Service.{Transaction, submit_checked}
use job_scheduling_simulatio.Scheduler.Types.{
  JobSubmission, check_submission, SubmissionDecision, Checkpoint, Database, SchedulerService,
  identical, conflict,
}

-- A key of a request that may be left out, or be null.
pub data PayloadField : Type 0 where
  left_out null : PayloadField
  given : String → PayloadField

-- `JobSubmissionInput`.
pub record JobSubmissionInput : Type 0 where
  pub job_id : String
  pub correlation_id : String
  pub job_type : String
  pub scheduled_at : Time
  pub payload : PayloadField
  pub payload_reference : Option String
  pub max_attempts : ℕ

-- `Field(default_factory=dict)`.
abbrev pub payload_of : PayloadField → Option String
payload_of left_out = some "{}"
payload_of null = none
payload_of (given text) = some text

-- `JobSubmission(**value.model_dump())`, before its own tests.
unfoldable pub submission_of : JobSubmissionInput → JobSubmission
submission_of value = record {
  job_id = value.job_id;
  correlation_id = value.correlation_id;
  job_type = value.job_type;
  scheduled_at = value.scheduled_at;
  payload = payload_of value.payload;
  payload_reference = value.payload_reference;
  max_attempts = value.max_attempts;
}

-- What a submission is answered: the framework's refusal of a request, an exception that the handler
-- lets through, and the handler's own answers.
pub data SubmissionAnswer : Type 0 where
  unprocessable server_error unsupported_job_type payload_too_large : SubmissionAnswer
  database_unavailable job_id_conflict : SubmissionAnswer
  submitted : Bool → SubmissionAnswer

unfoldable pub status_code : SubmissionAnswer → ℕ
status_code unprocessable = 422
status_code server_error = 500
status_code unsupported_job_type = 422
status_code payload_too_large = 413
status_code database_unavailable = 503
status_code job_id_conflict = 409
status_code (submitted created) = if created then 201 else 200

-- The answer to a decision.
unfoldable pub answer_of : Transaction SubmissionDecision → Database × SubmissionAnswer
answer_of (db, ok SubmissionDecision.created) = (db, submitted true)
answer_of (db, ok identical) = (db, submitted false)
answer_of (db, ok conflict) = (db, job_id_conflict)
answer_of (db, raised error) = (db, server_error)

-- The submission of a value that its constructor has accepted, or refused by an exception.
unfoldable pub submit_valid :
    SchedulerService
    → (Checkpoint → Bool)
    → Bool
    → Time
    → Database
    → Result Error JobSubmission
    → Database × SubmissionAnswer
unfolding answer_of submit_checked
submit_valid service fault unavailable now db (raised error) = (db, server_error)
submit_valid service fault unavailable now db (ok value) =
    if unavailable
    then (db, database_unavailable)
    else answer_of (submit_checked service fault value now db)

-- `submit_job`.
unfoldable pub submit_job :
    (Option String → ℕ)
    → ℕ
    → SchedulerService
    → (Checkpoint → Bool)
    → Bool
    → JobSubmissionInput
    → Time
    → Database
    → Database × SubmissionAnswer
unfolding submission_of
submit_job size_of max_payload_bytes service fault unavailable input now db =
    let value = submission_of input in
    if ltb value.max_attempts 1
    then (db, unprocessable)
    else if not (value.job_type == "PRINT" || value.job_type == "FIBONACCI")
    then (db, unsupported_job_type)
    else if ltb max_payload_bytes (size_of value.payload)
    then (db, payload_too_large)
    else submit_valid service fault unavailable now db (check_submission value)

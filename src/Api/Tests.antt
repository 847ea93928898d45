-- ===== src/Api/Tests.antt =====
-- Concrete requests of src/job_visibility/api.py.
use job_scheduling_simulatio.Prelude.{
  ℕ, String, ◌≡◌, refl, ◌⊎◌, Bool, true, false, Option, none, some, [], nat_key, text_key, lookup,
}
use job_scheduling_simulatio.Model.{code_key}
use job_scheduling_simulatio.Api.Submission.{
  JobSubmissionInput, status_code, answer_of, submit_valid, submit_job, left_out, submitted,
}
use job_scheduling_simulatio.Api.Retries.{is_created_answer, submit_job_retry}
use job_scheduling_simulatio.Scheduler.Service.{submit_checked}
use job_scheduling_simulatio.Scheduler.Submission.{no_fault}
use job_scheduling_simulatio.Scheduler.Types.{
  check_submission, Checkpoint, Database, SchedulerService, default_retry_delay,
  scheduler_after_commit,
}

abbrev service : SchedulerService
service = record {
  topic = "t";
  claim_lease_seconds = 60;
  retry_delay = default_retry_delay;
  uuid = λ n. "id";
}

abbrev empty : Database
empty = record { jobs = []; attempts = []; outbox = []; drawn = 0 }

abbrev no_bytes : Option String → ℕ
no_bytes payload = 0

abbrev request : JobSubmissionInput
request = record {
  job_id = "job-1";
  correlation_id = "c";
  job_type = "PRINT";
  scheduled_at = 10;
  payload = left_out;
  payload_reference = none;
  max_attempts = 3;
}

-- The answer of the first request is lost after its commit.
abbrev lost_answer : Checkpoint → Bool
lost_answer scheduler_after_commit = true
lost_answer _ = false

submit_job_retry_example :
    let first = submit_job no_bytes 100 service lost_answer false request 5 empty in
    ((first.0 ≡ empty) × (is_created_answer first.1 ≡ false))
    ⊎ (submit_job no_bytes 100 service no_fault false request 6 first.0
        ≡ (first.0, submitted false))
submit_job_retry_example = submit_job_retry no_bytes 100 service lost_answer false request 5 6 empty

request_is_created :
    status_code (submit_job no_bytes 100 service no_fault false request 5 empty).1 ≡ 201
unfolding status_code submit_job submit_valid check_submission answer_of submit_checked lookup
request_is_created = refl

-- A request by reference alone has the default payload beside its reference, and ends in an exception.
reference_fails :
    status_code
      (submit_job no_bytes 100 service no_fault false
        (record request { payload_reference = some "s3://jobs/1" })
        5
        empty).1
    ≡ 500
unfolding status_code submit_job submit_valid check_submission
reference_fails = refl

-- So does one with an empty id.
empty_id_fails :
    status_code
      (submit_job no_bytes 100 service no_fault false (record request { job_id = "" }) 5 empty).1
    ≡ 500
unfolding status_code submit_job submit_valid check_submission
empty_id_fails = refl

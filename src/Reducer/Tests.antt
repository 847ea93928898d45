-- ===== src/Reducer/Tests.antt =====
-- The reduction of src/job_visibility/engine.py on concrete events, and its theorems at inputs that
-- meet their hypotheses.
use mathlib.Core.List.Perm
use job_scheduling_simulatio.Prelude.{
  ◌+◌, ◌≡◌, refl, true, some, [], ◌∷◌, nat_key, text_key, lookup, insert,
}
use job_scheduling_simulatio.Model.{
  Status, Event, make_event, AttemptStatus, new_attempt, code_key, JobVisibility, new_job,
  max_attempt, next_attempt_number, job_created, job_execution_started, job_execution_succeeded,
  job_retry_rejected, cancelled, applied,
}
use job_scheduling_simulatio.Reducer.Retry.{decide_succeeded_retry}
use job_scheduling_simulatio.Reducer.Reduce.{handle, absorb, project, decide, record_decision}
use job_scheduling_simulatio.Reducer.Rules.{
  attempt_or_new, with_attempt, attempt_of, store_attempt, same_outcome, is_semantic_duplicate,
}
use job_scheduling_simulatio.Reducer.Stamps.{
  stamps, stamp, reduce_all, stamps-decide, reduce_all-perm,
}

abbrev created_event : Event
created_event = make_event "evt-1" job_created 10 11 "job-1"

abbrev started_event : Event
started_event = record (make_event "evt-2" job_execution_started 20 21 "job-1") {
  attempt_number = 1;
}

abbrev succeeded_event : Event
succeeded_event = record (make_event "evt-3" job_execution_succeeded 30 31 "job-1") {
  attempt_number = 1;
}

abbrev rejected_event : Event
rejected_event = make_event "evt-4" job_retry_rejected 40 41 "job-1"

abbrev blank_job : JobVisibility
blank_job = new_job "job-1"

abbrev cancelled_job : JobVisibility
cancelled_job = record blank_job { recorded_status = cancelled }

-- A running second attempt, after a retry that was requested and acknowledged.
abbrev retried_job : JobVisibility
retried_job = record blank_job {
  recorded_status = Status.running;
  retry_requested = true;
  retry_acknowledged = true;
  attempts =
      (1, record (new_attempt 1) { status = AttemptStatus.failed })
      ∷ (2, record (new_attempt 2) { status = AttemptStatus.running })
      ∷ [];
}

abbrev second_success : Event
second_success = record (make_event "evt-5" job_execution_succeeded 50 51 "job-1") {
  attempt_number = 2;
}

run_statuses :
    (reduce_all blank_job (created_event ∷ started_event ∷ succeeded_event ∷ [])).recorded_status
    ≡ Status.succeeded
unfolding reduce_all record_decision decide project absorb handle is_semantic_duplicate same_outcome
    lookup insert with_attempt attempt_of attempt_or_new store_attempt
run_statuses = refl

run_version :
    (reduce_all blank_job (created_event ∷ started_event ∷ succeeded_event ∷ [])).version ≡ 3
unfolding reduce_all record_decision decide project absorb handle is_semantic_duplicate same_outcome
    lookup insert with_attempt attempt_of attempt_or_new store_attempt
run_version = refl

reduce_all-perm_example :
    stamps (reduce_all blank_job (created_event ∷ started_event ∷ []))
    ≡ stamps (reduce_all blank_job (started_event ∷ created_event ∷ []))
reduce_all-perm_example =
    reduce_all-perm blank_job (created_event ∷ started_event ∷ [])
      (started_event ∷ created_event ∷ []) (Perm.swap started_event created_event [])

stamps-decide_example :
    stamps (record_decision created_event (decide blank_job created_event)).0
    ≡ stamp (stamps blank_job) created_event
stamps-decide_example = stamps-decide blank_job created_event

rejected_is_applied : (decide blank_job rejected_event).1.decision ≡ applied
unfolding decide project absorb handle is_semantic_duplicate same_outcome lookup
rejected_is_applied = refl

second_attempt_runs : (attempt_of retried_job second_success).status ≡ AttemptStatus.running
unfolding attempt_of attempt_or_new lookup
second_attempt_runs = refl

decide_succeeded_retry_example :
    ((decide retried_job second_success).0.recorded_status ≡ Status.succeeded)
    × (next_attempt_number (decide retried_job second_success).0
        ≡ some (max_attempt (decide retried_job second_success).0.attempts + 1))
decide_succeeded_retry_example =
    decide_succeeded_retry retried_job second_success refl refl second_attempt_runs refl refl

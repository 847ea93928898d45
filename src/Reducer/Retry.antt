-- ===== src/Reducer/Retry.antt =====
-- The retry block of a job: `next_attempt_number` of src/job_visibility/model.py against the handlers
-- of src/job_visibility/engine.py.
use job_scheduling_simulatio.Prelude.{
  ℕ, ◌+◌, ◌≡◌, inl, inr, Bool, true, false, Option, none, some, arith, Bool-cases, is_some, nat_key,
  text_key, lookup,
}
use job_scheduling_simulatio.Model.{
  EventType, Status, is_terminal, Event, AttemptStatus, Attempt, code_key, JobVisibility,
  max_attempt, next_attempt_number, job_created, job_execution_succeeded, job_execution_failed,
  job_retry_rejected, job_retries_exhausted, applied,
}
use job_scheduling_simulatio.Reducer.Handlers.{on_job_execution_succeeded}
use job_scheduling_simulatio.Reducer.Reduce.{handle, absorb, project, decide, record_decision}
use job_scheduling_simulatio.Reducer.Rules.{
  Attempts, attempt_key, attempt_or_new, attempt_of, same_outcome, is_semantic_duplicate,
}

-- An acknowledged retry is a requested one, and a time for the next retry needs a request.
pub record IsCoherent (job : JobVisibility) : Type 0 where
  pub requested : job.retry_acknowledged ≡ true → job.retry_requested ≡ true
  pub timed : is_some job.next_retry_at ≡ true → job.retry_requested ≡ true

handle-IsCoherent :
    (k : EventType) (job : JobVisibility) (event : Event)
    → IsCoherent job
    → IsCoherent (handle k job event).0
unfolding handle
handle-IsCoherent job_created job event h = ground (arith, h.requested, h.timed)
handle-IsCoherent _ job event h = ground (arith, h.requested, h.timed)

-- One event keeps it: an acknowledged retry was requested, and so was one that has a time.
pub decide-IsCoherent :
    (job : JobVisibility) (event : Event)
    → IsCoherent job
    → IsCoherent (record_decision event (decide job event)).0
unfolding record_decision decide project absorb
decide-IsCoherent job event h =
    let next : IsCoherent (handle event.event_type (absorb job event) event).0 =
      handle-IsCoherent event.event_type (absorb job event) event
        (record { requested = h.requested; timed = h.timed }) in
    elim (Bool-cases (is_semantic_duplicate job event)) [
      | inl e ↦ rw (e, decide) (record { requested = h.requested; timed = h.timed })
      | inr e ↦ rw (e, decide) (record { requested = next.requested; timed = next.timed })
    ]

-- The events after which no attempt is left: an exhaustion and a rejection.
abbrev pub closes_retries : EventType → Bool
closes_retries job_retries_exhausted = true
closes_retries job_retry_rejected = true
closes_retries _ = false

handle-closes_retries :
    (k : EventType) (job : JobVisibility) (event : Event)
    → closes_retries k ≡ true
    → (handle k job event).1 ≡ true
    → (is_terminal (handle k job event).0.recorded_status ≡ true)
      × (next_attempt_number (handle k job event).0 ≡ none)
      × ((handle k job event).0.retry_eligible ≡ false)
unfolding handle next_attempt_number
handle-closes_retries job_created job event h a = cc
handle-closes_retries _ job event h a = ground arith

-- No duplicate outcome is a closing event.
closing_is_no_outcome :
    (k : EventType) (o : Option Attempt) → closes_retries k ≡ true → same_outcome k o ≡ false
unfolding same_outcome
closing_is_no_outcome job_created o h = cc
closing_is_no_outcome _ o h = ground arith

-- When an exhaustion or a rejection is applied, the job is terminal, not eligible for a retry, and
-- offers no next attempt.
pub decide-closes_retries :
    (job : JobVisibility) (event : Event)
    → closes_retries event.event_type ≡ true
    → (decide job event).1.decision ≡ applied
    → (is_terminal (decide job event).0.recorded_status ≡ true)
      × (next_attempt_number (decide job event).0 ≡ none)
      × ((decide job event).0.retry_eligible ≡ false)
unfolding decide project is_semantic_duplicate next_attempt_number
decide-closes_retries job event h a = ground (
  arith,
  closing_is_no_outcome event.event_type (lookup (attempt_key event) job.attempts),
  handle-closes_retries event.event_type (absorb job event) event,
)

-- A retry that was acknowledged and then succeeds leaves a job that is SUCCEEDED and still offers a
-- next attempt: the success does not reset the retry flags.
succeeded_retry :
    (job : JobVisibility) (event : Event)
    → job.recorded_status ≡ Status.running
    → (attempt_of job event).status ≡ AttemptStatus.running
    → job.retry_acknowledged ≡ true
    → job.retry_requested ≡ true
    → let next = (on_job_execution_succeeded job event).0 in
      (next.recorded_status ≡ Status.succeeded)
      × (next_attempt_number next ≡ some (max_attempt next.attempts + 1))
unfolding on_job_execution_succeeded next_attempt_number attempt_of
succeeded_retry job event r a k q = ground arith

running_is_no_outcome :
    (k : EventType) (n : ℕ) (attempts : Attempts)
    → (attempt_or_new n attempts).status ≡ AttemptStatus.running
    → same_outcome k (lookup n attempts) ≡ false
unfolding same_outcome attempt_or_new
running_is_no_outcome job_execution_succeeded n attempts h = ground arith
running_is_no_outcome job_execution_failed n attempts h = ground arith
running_is_no_outcome _ n attempts h = ground arith

running_is_no_duplicate :
    (job : JobVisibility) (event : Event)
    → (attempt_of job event).status ≡ AttemptStatus.running
    → is_semantic_duplicate job event ≡ false
unfolding is_semantic_duplicate attempt_of
running_is_no_duplicate job event h =
    running_is_no_outcome event.event_type (attempt_key event) job.attempts h

-- A running attempt whose retry was requested and acknowledged succeeds: the job is then SUCCEEDED
-- and still offers a next attempt, since the success does not reset the retry flags.
pub decide_succeeded_retry :
    (job : JobVisibility) (event : Event)
    → event.event_type ≡ job_execution_succeeded
    → job.recorded_status ≡ Status.running
    → (attempt_of job event).status ≡ AttemptStatus.running
    → job.retry_acknowledged ≡ true
    → job.retry_requested ≡ true
    → let next = (decide job event).0 in
      (next.recorded_status ≡ Status.succeeded)
      × (next_attempt_number next ≡ some (max_attempt next.attempts + 1))
unfolding decide project absorb next_attempt_number attempt_of
decide_succeeded_retry job event e r a k q =
    rw (running_is_no_duplicate job event a, decide)
      (rw (e, handle) (succeeded_retry (absorb job event) event r a k q))

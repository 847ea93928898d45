-- ===== src/Scheduler/Tables.antt =====
-- The statements of src/job_visibility/scheduler/service.py on the tables: the updates of one row,
-- the fenced update, the insertion of an event into the outbox. `now` is a statement's reading of
-- `clock_timestamp()`.
use job_scheduling_simulatio.Prelude.{
  ℕ, suc, ◌+◌, String, Bool, false, ◌&&◌, Option, none, some, List, [], ◌∷◌, ◌++◌, ltb, leb,
  if◌then◌else◌, ◌==◌, nat_key, text_key, lookup, insert, Result, ok, raised,
}
use job_scheduling_simulatio.Model.{EventType, Time, seconds, Event, make_event, code_key}
use job_scheduling_simulatio.Scheduler.Types.{
  JobSubmission, ClaimedJob, Failure, JobStatus, JobRow, AttemptRow, OutboxRow, Database,
  SchedulerService, stale_claim, pending, retry_wait,
}

-- `_claimed`, of a row that holds a claim.
unfoldable pub claimed_job : JobRow → String → String → Time → ClaimedJob
claimed_job row owner token expires_at = record {
  job_id = row.job_id;
  correlation_id = row.correlation_id;
  job_type = row.job_type;
  payload = row.payload;
  payload_reference = row.payload_reference;
  scheduled_at = row.scheduled_at;
  attempt_number = row.attempt_number;
  max_attempts = row.max_attempts;
  claimed_by = owner;
  claim_token = token;
  claim_expires_at = expires_at;
}

-- The row that `submit_checked` inserts.
unfoldable pub submitted_row : JobSubmission → Time → JobRow
submitted_row value now = record {
  job_id = value.job_id;
  correlation_id = value.correlation_id;
  job_type = value.job_type;
  payload = value.payload;
  payload_reference = value.payload_reference;
  scheduled_at = value.scheduled_at;
  available_at = value.scheduled_at;
  status = pending;
  attempt_number = 0;
  max_attempts = value.max_attempts;
  claimed_by = none;
  claim_token = none;
  claimed_at = none;
  claim_expires_at = none;
  created_at = now;
  updated_at = now;
  version = 0;
}

-- `UPDATE … SET status='CLAIMED', …` of `claim_due`.
unfoldable pub claim_row : ℕ → String → String → Time → JobRow → JobRow
claim_row lease owner token now row = record row {
  status = JobStatus.claimed;
  attempt_number = row.attempt_number + 1;
  claimed_by = some owner;
  claim_token = some token;
  claimed_at = some now;
  claim_expires_at = some (now + seconds lease);
  updated_at = now;
  version = row.version + 1;
}

-- The assignments of `start`.
unfoldable pub start_row : Time → JobRow → JobRow
start_row now row = record row {
  status = JobStatus.running;
  updated_at = now;
  version = row.version + 1;
}

-- The assignments of `heartbeat`.
unfoldable pub heartbeat_row : ℕ → Time → JobRow → JobRow
heartbeat_row lease now row = record row {
  claim_expires_at = some (now + seconds lease);
  updated_at = now;
}

-- `claimed_by=NULL, claim_token=NULL, claimed_at=NULL, claim_expires_at=NULL, …`.
unfoldable pub release_row : JobStatus → Time → Time → JobRow → JobRow
release_row status available_at now row = record row {
  status = status;
  available_at = available_at;
  claimed_by = none;
  claim_token = none;
  claimed_at = none;
  claim_expires_at = none;
  updated_at = now;
  version = row.version + 1;
}

-- The assignments of `succeed`.
unfoldable pub succeed_row : Time → JobRow → JobRow
unfolding release_row
succeed_row now row = release_row JobStatus.succeeded row.available_at now row

-- The assignments of `recover_expired_claims`.
unfoldable pub recover_row : Time → JobRow → JobRow
unfolding release_row
recover_row now row =
    release_row
      (if ltb row.attempt_number row.max_attempts then retry_wait else JobStatus.retries_exhausted)
      now now row

abbrev pub is_option : Option String → String → Bool
is_option none value = false
is_option (some held) value = held == value

abbrev pub not_before : Option Time → Time → Bool
not_before none now = false
not_before (some expires_at) now = leb now expires_at

-- The condition of `_fenced_update` on the row of the claimed job.
unfoldable pub is_current : ClaimedJob → Time → JobRow → Bool
is_current job now row =
    row.attempt_number == job.attempt_number
    && is_option row.claimed_by job.claimed_by
    && is_option row.claim_token job.claim_token
    && not_before row.claim_expires_at now

unfoldable pub fence :
    Option JobRow → ClaimedJob → Time → (JobRow → JobRow) → Database → Result Failure Database
fence none job now assign db = raised (stale_claim job.job_id)
fence (some row) job now assign db =
    if is_current job now row
    then ok (record db { jobs = insert job.job_id (assign row) db.jobs })
    else raised (stale_claim job.job_id)

-- `_fenced_update`: the row is changed if the claim is still current.
unfoldable pub fenced_update :
    ClaimedJob → Time → (JobRow → JobRow) → Database → Result Failure Database
unfolding fence is_current
fenced_update job now assign db = fence (lookup job.job_id db.jobs) job now assign db

-- `UPDATE scheduler_attempts SET … WHERE job_id=:job_id AND attempt_number=:attempt`.
unfoldable pub update_attempt :
    String → ℕ → (AttemptRow → AttemptRow) → List AttemptRow → List AttemptRow
update_attempt job_id number assign [] = []
update_attempt job_id number assign (row ∷ rest) =
    (if row.job_id == job_id && row.attempt_number == number then assign row else row)
    ∷ update_attempt job_id number assign rest

unfoldable pub outbox_row : String → Time → Event → OutboxRow
outbox_row topic now event = record {
  event = event;
  topic = topic;
  message_key = event.job_id;
  created_at = now;
  published_at = none;
  publish_attempts = 0;
  last_error = none;
  next_attempt_at = now;
  lease_owner = none;
  lease_token = none;
  lease_expires_at = none;
  kafka_partition = none;
  kafka_offset = none;
}

-- `_add_event`: the event with a new UUID, ingested when it happened, goes to the outbox. `fill` sets
-- the fields that the caller gives.
unfoldable pub add_event :
    SchedulerService → EventType → String → Time → (Event → Event) → Database → Database
unfolding outbox_row
add_event service kind job_id time fill db = record db {
  outbox =
      db.outbox
      ++ outbox_row service.topic time
          (fill (make_event (service.uuid db.drawn) kind time time job_id))
        ∷ [];
  drawn = suc db.drawn;
}

-- The fields that `_event_values` gives.
unfoldable pub submission_fields : JobSubmission → Event → Event
submission_fields value event = record event {
  correlation_id = value.correlation_id;
  job_type = value.job_type;
  scheduled_at = some value.scheduled_at;
  attempt_number = 0;
  max_attempts = value.max_attempts;
}

-- The fields that `_add_job_event` gives.
unfoldable pub job_fields : ClaimedJob → Event → Event
job_fields job event = record event {
  correlation_id = job.correlation_id;
  job_type = job.job_type;
  scheduled_at = some job.scheduled_at;
  attempt_number = job.attempt_number;
  max_attempts = job.max_attempts;
}

-- `_add_job_event`.
unfoldable pub add_job_event :
    SchedulerService → ClaimedJob → EventType → Time → (Event → Event) → Database → Database
unfolding add_event job_fields
add_job_event service job kind time fill db =
    add_event service kind job.job_id time (λ event. fill (job_fields job event)) db

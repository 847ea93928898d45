-- ===== src/Scheduler/Claims.antt =====
-- `claim_due` and `recover_expired_claims` of src/job_visibility/scheduler/service.py. `locked` says
-- which rows another transaction holds, which SKIP LOCKED passes over.
use job_scheduling_simulatio.Prelude.{
  ℕ, suc, ◌+◌, String, Bool, true, false, not, ◌&&◌, ◌||◌, Option, none, some, List, [], ◌∷◌, ◌++◌,
  sort, ltb, leb, text_le, if◌then◌else◌, ◌==◌, nat_key, text_key, length, select, take, Dict,
  insert, values,
}
use job_scheduling_simulatio.Model.{Time, seconds, code_key, job_scheduler_item_retrieved}
use job_scheduling_simulatio.Scheduler.Tables.{claimed_job, claim_row, recover_row, add_job_event}
use job_scheduling_simulatio.Scheduler.Types.{
  ClaimedJob, is_claimable, is_held, JobRow, AttemptRow, Database, SchedulerService,
}

-- `ORDER BY available_at, job_id`.
abbrev pub due_le : JobRow → JobRow → Bool
due_le a b =
    ltb a.available_at b.available_at
    || a.available_at == b.available_at && text_le a.job_id b.job_id

-- The condition of the `due` rows.
abbrev pub is_due : (JobRow → Bool) → Time → JobRow → Bool
is_due locked now row = is_claimable row.status && leb row.available_at now && not (locked row)

-- The rows that `claim_due` selects for update.
unfoldable pub due_rows : (JobRow → Bool) → Time → ℕ → Dict String JobRow → List JobRow
due_rows locked now limit jobs = take limit (sort due_le (select (is_due locked now) (values jobs)))

unfoldable pub claimed_attempt : ClaimedJob → Time → AttemptRow
claimed_attempt job now = record {
  job_id = job.job_id;
  attempt_number = job.attempt_number;
  claim_token = job.claim_token;
  claimed_by = job.claimed_by;
  claimed_at = now;
  started_at = none;
  completed_at = none;
  outcome = none;
  retryable = none;
  error_code = none;
  result_summary = none;
  next_retry_at = none;
}

-- One due row: it is claimed under a new UUID, and its attempt and event are inserted.
unfoldable pub claim_one :
    SchedulerService → String → Time → JobRow → Database → Database × ClaimedJob
unfolding claim_row claimed_job claimed_attempt add_job_event
claim_one service owner now row db =
    let token = service.uuid db.drawn in
    let next = claim_row service.claim_lease_seconds owner token now row in
    let job = claimed_job next owner token (now + seconds service.claim_lease_seconds) in
    (
      add_job_event service job job_scheduler_item_retrieved now (λ event. event)
          (record db {
            jobs = insert row.job_id next db.jobs;
            attempts = db.attempts ++ claimed_attempt job now ∷ [];
            drawn = suc db.drawn;
          }),
      job,
    )

unfoldable pub claim_rows :
    SchedulerService → String → Time → List JobRow → Database → Database × List ClaimedJob
unfolding claim_one
claim_rows service owner now [] db = (db, [])
claim_rows service owner now (row ∷ rest) db =
    let (db', job) = claim_one service owner now row db in
    let (db'', jobs) = claim_rows service owner now rest db' in (db'', job ∷ jobs)

-- `claim_due`: a limit below one claims nothing.
unfoldable pub claim_due :
    SchedulerService → (JobRow → Bool) → String → ℕ → Time → Database → Database × List ClaimedJob
unfolding due_rows claim_rows
claim_due service locked owner limit now db =
    if ltb limit 1
    then (db, [])
    else claim_rows service owner now (due_rows locked now limit db.jobs) db

abbrev ends_before : Option Time → Time → Bool
ends_before none now = false
ends_before (some expires_at) now = ltb expires_at now

-- Nulls come last.
abbrev option_le : Option Time → Option Time → Bool
option_le none none = true
option_le none (some b) = false
option_le (some a) none = true
option_le (some a) (some b) = leb a b

-- The condition of the `expired` rows; an end of lease that is null is not before the clock.
abbrev pub is_expired : (JobRow → Bool) → Time → JobRow → Bool
is_expired locked now row =
    is_held row.status && ends_before row.claim_expires_at now && not (locked row)

-- `ORDER BY claim_expires_at`.
abbrev pub expiry_le : JobRow → JobRow → Bool
expiry_le a b = option_le a.claim_expires_at b.claim_expires_at

unfoldable pub expired_rows : (JobRow → Bool) → Time → ℕ → Dict String JobRow → List JobRow
expired_rows locked now limit jobs =
    take limit (sort expiry_le (select (is_expired locked now) (values jobs)))

unfoldable pub recover_rows : Time → List JobRow → Dict String JobRow → Dict String JobRow
unfolding recover_row
recover_rows now [] jobs = jobs
recover_rows now (row ∷ rest) jobs =
    recover_rows now rest (insert row.job_id (recover_row now row) jobs)

-- `recover_expired_claims`: the number of claims that were taken back.
unfoldable pub recover_expired_claims : (JobRow → Bool) → ℕ → Time → Database → Database × ℕ
unfolding expired_rows recover_rows
recover_expired_claims locked limit now db =
    let expired = expired_rows locked now limit db.jobs in
    (record db { jobs = recover_rows now expired db.jobs }, length expired)

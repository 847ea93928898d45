-- ===== src/Scheduler/Tests.antt =====
-- The scheduler of src/job_visibility/scheduler on a concrete database, and its theorems at inputs
-- that meet their hypotheses.
use mathlib.Core.List.{Memᴰ}
use job_scheduling_simulatio.Prelude.{
  ◌+◌, ◌≤◌, ◌≡◌, refl, ◌⊎◌, Bool, true, false, none, some, [], ◌∷◌, arith, nat_key, text_key,
  length, All, lookup, ok, raised,
}
use job_scheduling_simulatio.Model.{Time, seconds, code_key}
use job_scheduling_simulatio.Scheduler.Service.{
  insert_submission, submit_checked, start, heartbeat, succeed, fail,
}
use job_scheduling_simulatio.Scheduler.Submission.{no_fault, submit_idempotent}
use job_scheduling_simulatio.Scheduler.Batches.{recovery_voids_claims}
use job_scheduling_simulatio.Scheduler.Claims.{
  due_rows, claim_due, expired_rows, recover_expired_claims,
}
use job_scheduling_simulatio.Scheduler.Tables.{claimed_job, submitted_row, claim_row, is_current}
use job_scheduling_simulatio.Scheduler.Types.{
  JobSubmission, ClaimedJob, JobRow, Database, SchedulerService, default_retry_delay, HandlerError,
  identical, scheduler_before_commit, stale_claim, synthetic_fault,
}
use job_scheduling_simulatio.Scheduler.Fencing.{
  holds, stale_changes_nothing, succeed_once, fail_once,
}
use job_scheduling_simulatio.Scheduler.Reachable.{
  Reachable-RowsValid, submits, claims, at_start, extended,
}
use job_scheduling_simulatio.Scheduler.Queue.{IsAvailable, due_rows-selection}
use job_scheduling_simulatio.Scheduler.Rows.{RowsValid, submitted_row-IsRow, claim_row-IsRow}

abbrev service : SchedulerService
service = record {
  topic = "job-lifecycle-edr.v1";
  claim_lease_seconds = 60;
  retry_delay = default_retry_delay;
  uuid = λ n. "uuid";
}

abbrev empty_database : Database
empty_database = record { jobs = []; attempts = []; outbox = []; drawn = 0 }

abbrev print_job : JobSubmission
print_job = record {
  job_id = "job-1";
  correlation_id = "correlation-1";
  job_type = "PRINT";
  scheduled_at = 5;
  payload = some "{}";
  payload_reference = none;
  max_attempts = 3;
}

-- The row of a job that is claimed by one worker.
abbrev claimed_row : JobRow
claimed_row = claim_row 60 "worker-1" "token-1" 10 (submitted_row print_job 5)

abbrev claimed_database : Database
claimed_database = record empty_database { jobs = ("job-1", claimed_row) ∷ [] }

abbrev claim : ClaimedJob
claim = claimed_job claimed_row "worker-1" "token-1" (10 + seconds 60)

-- A claim of the same attempt under another token.
abbrev stale : ClaimedJob
stale = record claim { claim_token = "token-0" }

old_token_is_refused : holds stale 20 claimed_database ≡ false
unfolding is_current lookup claim_row submitted_row claimed_job
old_token_is_refused = refl

its_token_is_held : holds claim 20 claimed_database ≡ true
unfolding is_current lookup claim_row submitted_row claimed_job
its_token_is_held = refl

abbrev timeout : HandlerError
timeout = record { code = "TIMEOUT"; retryable = true }

stale_changes_nothing_example :
    (start service stale 20 claimed_database
      ≡ (claimed_database, raised (stale_claim stale.job_id)))
    × (heartbeat service stale 20 claimed_database
        ≡ (claimed_database, raised (stale_claim stale.job_id)))
    × (succeed service stale "{}" 20 claimed_database
        ≡ (claimed_database, raised (stale_claim stale.job_id)))
    × (fail service stale timeout 20 20 claimed_database
        ≡ (claimed_database, raised (stale_claim stale.job_id)))
stale_changes_nothing_example =
    stale_changes_nothing service stale "{}" timeout 20 20 claimed_database old_token_is_refused
      old_token_is_refused

succeed_once_example :
    ((succeed service claim "{}" 20 claimed_database).1 ≡ ok tt)
    × (holds claim 30 (succeed service claim "{}" 20 claimed_database).0 ≡ false)
succeed_once_example = succeed_once service claim "{}" 20 30 claimed_database its_token_is_held

fail_once_example :
    ((fail service claim timeout 19 20 claimed_database).1 ≡ ok tt)
    × (holds claim 30 (fail service claim timeout 19 20 claimed_database).0 ≡ false)
fail_once_example = fail_once service claim timeout 19 20 30 claimed_database its_token_is_held

abbrev unlocked : JobRow → Bool
unlocked row = false

abbrev late : Time
late = 100_000_000

recovery_voids_claims_example :
    All
      (λ row.
        (job : ClaimedJob) (later : Time)
        → job.job_id ≡ row.job_id
        → holds job later (recover_expired_claims unlocked 10 late claimed_database).0 ≡ false)
      (expired_rows unlocked late 10 claimed_database.jobs)
    × ((recover_expired_claims unlocked 10 late claimed_database).0.outbox ≡ [])
    × ((recover_expired_claims unlocked 10 late claimed_database).0.attempts ≡ [])
recovery_voids_claims_example = recovery_voids_claims unlocked 10 late claimed_database

nothing_stored : lookup "job-1" empty_database.jobs ≡ none
unfolding lookup
nothing_stored = refl

submit_idempotent_example :
    let first = submit_checked service no_fault print_job 6 empty_database in
    ((no_fault scheduler_before_commit ≡ true)
      × (first ≡ (empty_database, raised (synthetic_fault scheduler_before_commit))))
    ⊎ ((no_fault scheduler_before_commit ≡ false)
        × (first.0 ≡ insert_submission service print_job 6 empty_database)
        × (submit_checked service no_fault print_job 7 first.0 ≡ (first.0, ok identical)))
submit_idempotent_example =
    submit_idempotent service no_fault print_job 6 7 empty_database nothing_stored

stored_row : lookup "job-1" claimed_database.jobs ≡ some claimed_row
unfolding lookup
stored_row = refl

claimed_database-valid : RowsValid claimed_database
claimed_database-valid = (
  claim_row-IsRow 60 "worker-1" "token-1" 10 "job-1" (submitted_row print_job 5)
      (unfold submitted_row in refl) (submitted_row-IsRow print_job 5 (omega arith)),
  tt,
)

due_rows-selection_example :
    (length (due_rows unlocked late 1 claimed_database.jobs) ≤ 1)
    × All
        (IsAvailable unlocked late claimed_database.jobs)
        (due_rows unlocked late 1 claimed_database.jobs)
    × ((row : JobRow)
        → IsAvailable unlocked late claimed_database.jobs row
        → Memᴰ row (due_rows unlocked late 1 claimed_database.jobs)
          ⊎ ((length (due_rows unlocked late 1 claimed_database.jobs) ≡ 1)
              × All
                  (λ r. r.available_at ≤ row.available_at)
                  (due_rows unlocked late 1 claimed_database.jobs)))
due_rows-selection_example = due_rows-selection unlocked late 1 claimed_database.jobs

abbrev submitted_database : Database
submitted_database = (submit_checked service no_fault print_job 6 empty_database).0

Reachable-RowsValid_example :
    RowsValid (claim_due service unlocked "worker-1" 1 10 submitted_database).0
Reachable-RowsValid_example =
    Reachable-RowsValid service (claim_due service unlocked "worker-1" 1 10 submitted_database).0 (
      extended submitted_database (claim_due service unlocked "worker-1" 1 10 submitted_database).0
        (extended empty_database submitted_database at_start
          (submits no_fault print_job 6 empty_database (omega arith)))
        (claims unlocked "worker-1" 1 10 submitted_database))

-- ===== src/Scheduler/Submission.antt =====
-- `submit_checked` of src/job_visibility/scheduler/service.py: atomic, idempotent, and never
-- overwriting.
use job_scheduling_simulatio.Prelude.{
  ◌≤◌, String, ◌≡◌, refl, ◌⊎◌, inl, inr, Bool, true, false, Option, none, some, arith,
  if◌then◌else◌, Bool-cases, Option-cases, nat_key, text_key, same_refl, lookup, lookup-insert_self,
  insert-Entries, ok, raised,
}
use job_scheduling_simulatio.Model.{Time, code_key}
use job_scheduling_simulatio.Scheduler.Service.{
  same_text, is_identical, insert_submission, submit_existing, submit_checked,
}
use job_scheduling_simulatio.Scheduler.Tables.{submitted_row}
use job_scheduling_simulatio.Scheduler.Types.{
  JobSubmission, Checkpoint, JobRow, Database, SchedulerService, identical, conflict,
  scheduler_before_commit, scheduler_after_commit, synthetic_fault,
}
use job_scheduling_simulatio.Scheduler.Rows.{IsRow, RowsValid, submitted_row-IsRow}

abbrev pub no_fault : Checkpoint → Bool
no_fault checkpoint = false

same_text_refl : (o : Option String) → same_text o o ≡ true
same_text_refl none = refl
same_text_refl (some a) = same_refl a

is_identical_self :
    (value : JobSubmission) (now : Time) → is_identical (submitted_row value now) value ≡ true
unfolding is_identical submitted_row
is_identical_self value now = rw (
  same_refl value.correlation_id,
  same_refl value.job_type,
  same_text_refl value.payload,
  same_text_refl value.payload_reference,
  same_refl value.scheduled_at,
  same_refl value.max_attempts,
)

lookup-insert_submission :
    (service : SchedulerService) (value : JobSubmission) (now : Time) (db : Database)
    → lookup value.job_id (insert_submission service value now db).jobs
      ≡ some (submitted_row value now)
unfolding insert_submission
lookup-insert_submission service value now db =
    lookup-insert_self value.job_id (submitted_row value now) db.jobs

-- For a job id that is not taken, submitted once and then again: a fault before the commit leaves no
-- trace; otherwise the job is stored even if the answer was lost, and the second submission of it
-- answers IDENTICAL and changes nothing.
pub submit_idempotent :
    (service : SchedulerService) (fault : Checkpoint → Bool) (value : JobSubmission)
    (now later : Time) (db : Database)
    → lookup value.job_id db.jobs ≡ none
    → let first = submit_checked service fault value now db in
      ((fault scheduler_before_commit ≡ true)
        × (first ≡ (db, raised (synthetic_fault scheduler_before_commit))))
      ⊎ ((fault scheduler_before_commit ≡ false)
          × (first.0 ≡ insert_submission service value now db)
          × (submit_checked service no_fault value later first.0 ≡ (first.0, ok identical)))
unfolding submit_checked submit_existing
submit_idempotent service fault value now later db e =
    elim (Bool-cases (fault scheduler_before_commit)) [
      | inl b ↦ inl (b, rw (e, submit_existing) (rw b))
      | inr b ↦ inr (b, stored b, again b)
    ]
  where
    stored :
        fault scheduler_before_commit ≡ false
        → (submit_checked service fault value now db).0 ≡ insert_submission service value now db
    stored b = rw (e, submit_existing) (rw b (ground arith))

    again :
        fault scheduler_before_commit ≡ false
        → submit_checked service no_fault value later (submit_checked service fault value now db).0
          ≡ ((submit_checked service fault value now db).0, ok identical)
    again b =
        rw (stored b)
          (rw (lookup-insert_submission service value now db) (rw (is_identical_self value now)))

-- A submission for an id that is taken changes nothing, and answers IDENTICAL or CONFLICT, whatever
-- the injector would do.
pub submit_taken :
    (service : SchedulerService) (fault : Checkpoint → Bool) (value : JobSubmission) (now : Time)
    (db : Database) (row : JobRow)
    → lookup value.job_id db.jobs ≡ some row
    → submit_checked service fault value now db
      ≡ (db, ok (if is_identical row value then identical else conflict))
unfolding submit_checked submit_existing
submit_taken service fault value now db row e = rw (e, submit_existing)

pub submit_checked-RowsValid :
    (service : SchedulerService) (fault : Checkpoint → Bool) (value : JobSubmission) (now : Time)
    (db : Database)
    → 1 ≤ value.max_attempts
    → RowsValid db
    → RowsValid (submit_checked service fault value now db).0
unfolding submit_checked submit_existing
submit_checked-RowsValid service fault value now db m v =
    elim (Option-cases (lookup value.job_id db.jobs)) [
      | inr (row, e) ↦ rw (e, submit_existing) v
      | inl e ↦
          let new : RowsValid (insert_submission service value now db) =
            unfold insert_submission in
            insert-Entries IsRow value.job_id _ db.jobs (submitted_row-IsRow value now m) v in
          elim (Bool-cases (fault scheduler_before_commit)) [
            | inl b ↦ rw (e, submit_existing) (rw b v)
            | inr b ↦ elim (Bool-cases (fault scheduler_after_commit)) [
              | inl a ↦ rw (e, submit_existing) (rw (b, a) new)
              | inr a ↦ rw (e, submit_existing) (rw (b, a) new)
            ]
          ]
    ]

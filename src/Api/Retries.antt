-- ===== src/Api/Retries.antt =====
-- A client that repeats its submission (src/job_visibility/api.py).
use job_scheduling_simulatio.Prelude.{
  ℕ, String, ◌≡◌, refl, ap, ◌⊎◌, inl, inr, Bool, true, false, not, ◌||◌, Option, ltb, if◌then◌else◌,
  Bool-cases, Option-cases, ◌==◌, nat_key, text_key, lookup, Result, ok, raised,
}
use job_scheduling_simulatio.Model.{Time, Error, code_key}
use job_scheduling_simulatio.Api.Submission.{
  JobSubmissionInput, submission_of, SubmissionAnswer, answer_of, submit_valid, submit_job,
  submitted,
}
use job_scheduling_simulatio.Scheduler.Service.{Transaction, is_identical, submit_checked}
use job_scheduling_simulatio.Scheduler.Submission.{no_fault, submit_idempotent, submit_taken}
use job_scheduling_simulatio.Scheduler.Types.{
  JobSubmission, check_submission, SubmissionDecision, Checkpoint, Database, SchedulerService,
  identical, conflict,
}

-- A calm submission of a value.
abbrev submit_again :
    SchedulerService → JobSubmission → Time → Database → Database × SubmissionAnswer
submit_again service value later db = answer_of (submit_checked service no_fault value later db)

-- Whether a job was created.
abbrev pub is_created_answer : SubmissionAnswer → Bool
is_created_answer (submitted true) = true
is_created_answer _ = false

submit_checked_retry :
    (service : SchedulerService) (fault : Checkpoint → Bool) (value : JobSubmission)
    (now later : Time) (db : Database)
    → let first = answer_of (submit_checked service fault value now db) in
      ((first.0 ≡ db) × (is_created_answer first.1 ≡ false))
      ⊎ (submit_again service value later first.0 ≡ (first.0, submitted false))
unfolding answer_of
submit_checked_retry service fault value now later db =
    elim (Option-cases (lookup value.job_id db.jobs)) [
      | inr (row, e) ↦
          inl (rw (submit_taken service fault value now db row e) (taken (is_identical row value)))
      | inl e ↦ elim (submit_idempotent service fault value now later db e) [
        | inl (before, same) ↦ inl (rw same (refl, refl))
        | inr (committed, stored, again) ↦
            inr (repeated (submit_checked service fault value now db) again)
      ]
    ]
  where
    taken :
        (b : Bool)
        → let first = answer_of (db, ok (if b then identical else conflict)) in
          (first.0 ≡ db) × (is_created_answer first.1 ≡ false)
    taken true = (refl, refl)
    taken false = (refl, refl)

    repeated :
        (first : Transaction SubmissionDecision)
        → submit_checked service no_fault value later first.0 ≡ (first.0, ok identical)
        → submit_again service value later (answer_of first).0
          ≡ ((answer_of first).0, submitted false)
    repeated (next, ok SubmissionDecision.created) e = ap answer_of e
    repeated (next, ok identical) e = ap answer_of e
    repeated (next, ok conflict) e = ap answer_of e
    repeated (next, raised error) e = ap answer_of e

submit_valid_retry :
    (service : SchedulerService) (fault : Checkpoint → Bool) (unavailable : Bool) (now later : Time)
    (db : Database) (value : Result Error JobSubmission)
    → let first = submit_valid service fault unavailable now db value in
      ((first.0 ≡ db) × (is_created_answer first.1 ≡ false))
      ⊎ (submit_valid service no_fault false later first.0 value ≡ (first.0, submitted false))
unfolding submit_valid
submit_valid_retry service fault unavailable now later db (raised error) = inl (refl, refl)
submit_valid_retry service fault true now later db (ok value) = inl (refl, refl)
submit_valid_retry service fault false now later db (ok value) =
    submit_checked_retry service fault value now later db

-- A request either creates no job and leaves the database as it was, or the same request, made again
-- without a fault, answers that the job is there (200) and changes nothing. This holds whatever the
-- first request was answered, and whether or not it met a fault before or after its commit.
pub submit_job_retry :
    (size_of : Option String → ℕ) (limit : ℕ) (service : SchedulerService)
    (fault : Checkpoint → Bool) (unavailable : Bool) (input : JobSubmissionInput) (now later : Time)
    (db : Database)
    → let first = submit_job size_of limit service fault unavailable input now db in
      ((first.0 ≡ db) × (is_created_answer first.1 ≡ false))
      ⊎ (submit_job size_of limit service no_fault false input later first.0
          ≡ (first.0, submitted false))
unfolding submit_job
submit_job_retry size_of limit service fault unavailable input now later db =
    let value = submission_of input in
    elim (Bool-cases (ltb value.max_attempts 1)) [
      | inl e ↦ inl (rw e (refl, refl))
      | inr e ↦
          elim (Bool-cases (not (value.job_type == "PRINT" || value.job_type == "FIBONACCI"))) [
            | inl f ↦ inl (rw (e, f) (refl, refl))
            | inr f ↦ elim (Bool-cases (ltb limit (size_of value.payload))) [
              | inl g ↦ inl (rw (e, f, g) (refl, refl))
              | inr g ↦
                  rw (e, f, g)
                    (submit_valid_retry service fault unavailable now later db
                      (check_submission value))
            ]
          ]
    ]

-- ===== src/Engine/Reconcile.antt =====
-- `reconcile` and the overdue test of `VisibilityEngine` (src/job_visibility/engine.py).
use job_scheduling_simulatio.Prelude.{
  ℕ, zero, suc, ◌+◌, String, Bool, true, false, not, ◌&&◌, Option, none, some, List, [], ◌∷◌, ◌++◌,
  sort, ltb, leb, if◌then◌else◌, is_some, ◌==◌, nat_key, text_key, Dict, lookup, keys,
}
use job_scheduling_simulatio.Model.{
  is_waiting, is_running, is_pending_submission, Time, seconds, FindingCode, code_key, Finding,
  JobVisibility, max_attempt, VisibilityConfig, scheduler_ack_timeout, running_timeout,
  retry_ack_timeout, execution_start_overdue, attempt_sequence_gap,
}
use job_scheduling_simulatio.Reducer.Rules.{Findings, Attempts, reopen, observe}
use job_scheduling_simulatio.Engine.Store.{VisibilityEngine}

-- `now - start > timedelta(seconds=limit)`, for a start that was observed.
abbrev pub elapsed : Option Time → Time → ℕ → Bool
elapsed none now limit = false
elapsed (some start) now limit = ltb (start + seconds limit) now

unfoldable pub is_overdue : VisibilityConfig → JobVisibility → Time → Bool
is_overdue config job now =
    not (is_some job.started_at)
    && is_waiting job.recorded_status
    && elapsed job.scheduled_at now config.grace_period_seconds

-- `list(range(start, start + n))`.
unfoldable pub count_up : ℕ → ℕ → List ℕ
count_up start zero = []
count_up start (suc n) = start ∷ count_up (suc start) n

unfoldable pub list_eq : List ℕ → List ℕ → Bool
list_eq [] [] = true
list_eq (x ∷ xs) (y ∷ ys) = x == y && list_eq xs ys
list_eq _ _ = false

-- `attempts and sorted(attempts) != list(range(1, max(attempts) + 1))`.
unfoldable pub has_sequence_gap : Attempts → Bool
unfolding list_eq count_up
has_sequence_gap attempts =
    not (list_eq (sort leb (keys attempts)) (count_up 1 (max_attempt attempts)))

abbrev pub Observed : Type 0
Observed = Findings × List Finding

-- One `if … : observed.append(self._finding(…))`.
unfoldable pub observe_if : Bool → FindingCode → Time → String → Observed → Observed
unfolding observe
observe_if test code now message (findings, observed) =
    if test
    then (
      observe findings code now message,
      observed ++ reopen (lookup code findings) code now message ∷ [],
    )
    else (findings, observed)

abbrev pub ack_is_late : VisibilityConfig → Time → JobVisibility → Bool
ack_is_late config now job =
    is_pending_submission job.recorded_status
    && elapsed job.submission_requested_at now config.submission_acknowledgement_timeout_seconds

abbrev pub runs_too_long : VisibilityConfig → Time → JobVisibility → Bool
runs_too_long config now job =
    is_running job.recorded_status && elapsed job.started_at now config.running_timeout_seconds

abbrev pub retry_ack_is_late : VisibilityConfig → Time → JobVisibility → Bool
retry_ack_is_late config now job =
    job.retry_requested
    && not job.retry_acknowledged
    && elapsed job.retry_requested_at now config.retry_acknowledgement_timeout_seconds

-- The body of the loop, for one job: its findings and those that were observed now.
unfoldable pub reconcile_findings : VisibilityConfig → Time → JobVisibility → Observed
unfolding observe_if is_overdue has_sequence_gap
reconcile_findings config now job =
    observe_if (has_sequence_gap job.attempts) attempt_sequence_gap now
      "Observed attempt numbers contain a gap; missing attempts were not inferred."
      (observe_if (is_overdue config job now) execution_start_overdue now
        "No execution start was observed before the business grace period expired."
        (observe_if (retry_ack_is_late config now job) retry_ack_timeout now
          "No retry acknowledgement was observed before the timeout."
          (observe_if (runs_too_long config now job) running_timeout now
            "Execution has remained running beyond the configured timeout."
            (observe_if (ack_is_late config now job) scheduler_ack_timeout now
              "No scheduler acknowledgement was observed before the timeout." (job.findings, [])))))

unfoldable pub reconcile_jobs :
    VisibilityConfig → Time → Dict String JobVisibility → Dict String JobVisibility × List Finding
unfolding reconcile_findings
reconcile_jobs config now [] = ([], [])
reconcile_jobs config now ((id, job) ∷ rest) =
    let (findings, observed) = reconcile_findings config now job in
    let (jobs, more) = reconcile_jobs config now rest in
    ((id, record job { findings = findings }) ∷ jobs, observed ++ more)

unfoldable pub reconcile : VisibilityEngine → Time → VisibilityEngine × List Finding
unfolding reconcile_jobs
reconcile engine now =
    let (jobs, observed) = reconcile_jobs engine.config now engine.jobs in
    (record engine { jobs = jobs }, observed)

-- ===== src/Reducer/Rules.antt =====
-- The static helpers of `VisibilityEngine` (src/job_visibility/engine.py): findings, attempts, and
-- the merging of timestamps. Each handler of an event works on a copy of the job, so a helper that
-- mutates the job returns the part of it that it changes.
use job_scheduling_simulatio.Prelude.{
  ℕ, zero, suc, ◌-◌, min, max, String, Bool, true, false, not, ◌&&◌, ◌||◌, Option, none, some, ltb,
  if◌then◌else◌, is_some, ◌==◌, nat_key, text_key, Dict, lookup, insert,
}
use job_scheduling_simulatio.Model.{
  EventType, Time, Event, is_attempt_succeeded, is_attempt_failed, Attempt, new_attempt,
  FindingCode, code_key, Finding, JobVisibility, job_execution_succeeded, job_execution_failed,
  attempt_sequence_gap, conflicting_terminal_outcome,
}

abbrev pub Findings : Type 0
Findings = Dict FindingCode Finding

abbrev pub Attempts : Type 0
Attempts = Dict ℕ Attempt

unfoldable pub earliest : Option Time → Option Time → Option Time
earliest none right = right
earliest (some a) none = some a
earliest (some a) (some b) = some (min a b)

unfoldable pub latest : Option Time → Option Time → Option Time
latest none right = right
latest (some a) none = some a
latest (some a) (some b) = some (max a b)

-- `text or other` for a text that may be missing or empty.
abbrev pub text_or : Option String → String → String
text_or none other = other
text_or (some text) other = if text == "" then other else text

unfoldable pub reopen : Option Finding → FindingCode → Time → String → Finding
reopen none code observed_at message = record {
  code = code;
  first_observed_at = observed_at;
  message = message;
  active = true;
  resolved_at = none;
}
reopen (some finding) code observed_at message = record finding {
  active = true;
  resolved_at = none;
}

-- `_finding`: an existing finding of that code is made active again, with its first observation.
unfoldable pub observe : Findings → FindingCode → Time → String → Findings
unfolding reopen
observe findings code observed_at message =
    insert code (reopen (lookup code findings) code observed_at message) findings

close : Option Finding → FindingCode → Time → Findings → Findings
close none code resolved_at findings = findings
close (some finding) code resolved_at findings =
    if finding.active
    then insert code (record finding { active = false; resolved_at = some resolved_at }) findings
    else findings

-- `_resolve`: only an active finding is resolved.
unfoldable pub resolve : Findings → FindingCode → Time → Findings
unfolding close
resolve findings code resolved_at = close (lookup code findings) code resolved_at findings

-- `any(missing not in attempts for missing in range(1, 1 + n))`.
unfoldable pub any_missing : ℕ → Attempts → Bool
any_missing zero attempts = false
any_missing (suc n) attempts = any_missing n attempts || not (is_some (lookup (suc n) attempts))

-- `event.attempt_number or 1`.
abbrev pub attempt_key : Event → ℕ
attempt_key event = if event.attempt_number == 0 then 1 else event.attempt_number

unfoldable pub has_gap : JobVisibility → ℕ → Bool
unfolding any_missing
has_gap job number = ltb 1 number && any_missing (number - 1) job.attempts

-- `attempts.setdefault(number, Attempt(attempt_number=number))`: the attempt that it returns.
unfoldable pub attempt_or_new : ℕ → Attempts → Attempt
attempt_or_new number attempts = elim (lookup number attempts) [
  | none ↦ new_attempt number
  | some attempt ↦ attempt
]

-- `_attempt`: what it does to the job. The attempt is stored by the handler, which changes it.
unfoldable pub with_attempt : JobVisibility → Event → JobVisibility
unfolding has_gap observe
with_attempt job event = record job {
  incomplete_lifecycle = job.incomplete_lifecycle || has_gap job (attempt_key event);
  findings =
      if has_gap job (attempt_key event)
      then observe job.findings attempt_sequence_gap event.ingestion_time
          "Observed attempt number has no complete preceding sequence."
      else job.findings;
}

unfoldable pub attempt_of : JobVisibility → Event → Attempt
unfolding attempt_or_new
attempt_of job event = attempt_or_new (attempt_key event) job.attempts

unfoldable pub store_attempt : JobVisibility → Event → Attempt → JobVisibility
store_attempt job event attempt = record job {
  attempts = insert (attempt_key event) attempt job.attempts;
}

unfoldable pub terminal_conflict : JobVisibility → Event → JobVisibility
unfolding observe
terminal_conflict job event = record job {
  incomplete_lifecycle = true;
  findings =
      observe job.findings conflicting_terminal_outcome event.ingestion_time
        "Conflicting terminal execution outcomes were observed.";
}

unfoldable pub same_outcome : EventType → Option Attempt → Bool
same_outcome job_execution_succeeded (some attempt) = is_attempt_succeeded attempt.status
same_outcome job_execution_failed (some attempt) = is_attempt_failed attempt.status
same_outcome _ _ = false

unfoldable pub is_semantic_duplicate : JobVisibility → Event → Bool
unfolding same_outcome
is_semantic_duplicate job event =
    same_outcome event.event_type (lookup (attempt_key event) job.attempts)

-- ===== src/Model/Statuses.antt =====
-- `Status`, `DelayClassification` and `TERMINAL_STATUSES` of src/job_visibility/model.py, and the
-- sets of statuses that src/job_visibility/engine.py writes inline.
use job_scheduling_simulatio.Prelude.{ℕ, Bool, true, false, nat_eq}

pub data Status : Type 0 where
  created pending_submission scheduled awaiting_execution running : Status
  retry_pending retry_scheduled succeeded failed retries_exhausted : Status
  overdue cancelled unknown : Status

pub data DelayClassification : Type 0 where
  not_yet_eligible awaiting_poll_window possible_batch_backlog : DelayClassification
  retrieved_awaiting_worker execution_overdue edr_delivery_delay : DelayClassification
  cause_unknown : DelayClassification

-- Membership in `TERMINAL_STATUSES`.
abbrev pub is_terminal : Status → Bool
is_terminal succeeded = true
is_terminal failed = true
is_terminal retries_exhausted = true
is_terminal cancelled = true
is_terminal _ = false

-- Membership in `{RUNNING, RETRY_PENDING, RETRY_SCHEDULED}`.
abbrev pub is_in_progress : Status → Bool
is_in_progress running = true
is_in_progress retry_pending = true
is_in_progress retry_scheduled = true
is_in_progress _ = false

-- Membership in `{SCHEDULED, AWAITING_EXECUTION}`.
abbrev pub is_waiting : Status → Bool
is_waiting scheduled = true
is_waiting awaiting_execution = true
is_waiting _ = false

abbrev pub is_succeeded : Status → Bool
is_succeeded succeeded = true
is_succeeded _ = false

abbrev pub is_failed : Status → Bool
is_failed failed = true
is_failed _ = false

abbrev pub is_running : Status → Bool
is_running running = true
is_running _ = false

abbrev pub is_cancelled : Status → Bool
is_cancelled cancelled = true
is_cancelled _ = false

abbrev pub is_retries_exhausted : Status → Bool
is_retries_exhausted retries_exhausted = true
is_retries_exhausted _ = false

abbrev pub is_awaiting_execution : Status → Bool
is_awaiting_execution awaiting_execution = true
is_awaiting_execution _ = false

abbrev pub is_pending_submission : Status → Bool
is_pending_submission pending_submission = true
is_pending_submission _ = false

abbrev pub is_unknown : Status → Bool
is_unknown unknown = true
is_unknown _ = false

abbrev pub is_overdue_status : Status → Bool
is_overdue_status overdue = true
is_overdue_status _ = false

-- The statuses numbered in the order of their declaration, to compare them.
abbrev rank : Status → ℕ
rank created = 0
rank pending_submission = 1
rank scheduled = 2
rank awaiting_execution = 3
rank running = 4
rank retry_pending = 5
rank retry_scheduled = 6
rank succeeded = 7
rank failed = 8
rank retries_exhausted = 9
rank overdue = 10
rank cancelled = 11
rank unknown = 12

abbrev pub status_eq : Status → Status → Bool
status_eq a b = nat_eq (rank a) (rank b)

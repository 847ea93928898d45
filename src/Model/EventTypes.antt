-- ===== src/Model/EventTypes.antt =====
-- `EventType`, `EdrType`, `EdrGroup`, `EdrRequirement`, `EdrLifecycle` and `classify_event` of
-- src/job_visibility/model.py.
use job_scheduling_simulatio.Prelude.{Bool, true, false, if◌then◌else◌}

pub data EventType : Type 0 where
  job_created : EventType
  job_scheduler_submission_requested : EventType
  job_scheduler_submission_acknowledged : EventType
  job_scheduler_submission_failed : EventType
  job_scheduler_item_retrieved : EventType
  job_execution_started : EventType
  job_execution_succeeded : EventType
  job_execution_failed : EventType
  job_retry_requested : EventType
  job_retry_acknowledged : EventType
  job_retry_rejected : EventType
  job_retries_exhausted : EventType
  job_cancelled : EventType

pub data EdrType : Type 0 where
  scheduling attempt : EdrType

pub data EdrGroup : Type 0 where
  scheduling execution retry terminal : EdrGroup

pub data EdrRequirement : Type 0 where
  optional mandatory : EdrRequirement

pub record EdrLifecycle : Type 0 where
  pub edr_type : EdrType
  pub group : EdrGroup
  pub requirement : EdrRequirement

-- Membership in `_SCHEDULING_EVENTS`.
abbrev pub scheduling_events : EventType → Bool
scheduling_events job_created = true
scheduling_events job_scheduler_submission_requested = true
scheduling_events job_scheduler_submission_acknowledged = true
scheduling_events _ = false

-- Membership in `_EXECUTION_EVENTS`.
abbrev pub execution_events : EventType → Bool
execution_events job_scheduler_item_retrieved = true
execution_events job_execution_started = true
execution_events _ = false

-- Membership in `_RETRY_EVENTS`.
abbrev pub retry_events : EventType → Bool
retry_events job_execution_failed = true
retry_events job_retry_requested = true
retry_events job_retry_acknowledged = true
retry_events _ = false

-- Membership in `_SCHEDULING_TERMINAL_EVENTS`.
abbrev pub scheduling_terminal_events : EventType → Bool
scheduling_terminal_events job_scheduler_submission_failed = true
scheduling_terminal_events job_retry_rejected = true
scheduling_terminal_events job_cancelled = true
scheduling_terminal_events _ = false

unfoldable pub classify_event : EventType → EdrLifecycle
classify_event t =
    if scheduling_events t
    then record {
      edr_type = EdrType.scheduling;
      group = EdrGroup.scheduling;
      requirement = optional;
    }
    else if execution_events t
    then record { edr_type = attempt; group = execution; requirement = optional }
    else if retry_events t
    then record { edr_type = attempt; group = retry; requirement = optional }
    else record {
      edr_type = if scheduling_terminal_events t then EdrType.scheduling else attempt;
      group = terminal;
      requirement = mandatory;
    }

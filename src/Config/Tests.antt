-- ===== src/Config/Tests.antt =====
-- Concrete environments of src/job_visibility/config.py.
use job_scheduling_simulatio.Prelude.{
  ℕ, ◌≤◌, String, ◌≡◌, refl, Option, [], ◌∷◌, nat_key, text_key, Dict, lookup, ok, raised,
}
use job_scheduling_simulatio.Model.{make_event, code_key, job_created}
use job_scheduling_simulatio.Config.Groups.{SchedulerTuning, OutboxTuning}
use job_scheduling_simulatio.Config.Environment.{
  scheduler_group, outbox_group, scheduler_tuning_from_env, outbox_tuning_from_env,
  configuration_error,
}
use job_scheduling_simulatio.Config.Roles.{worker_of, scheduler_worker}
use job_scheduling_simulatio.Config.Accepted.{scheduler_worker-from_env}
use job_scheduling_simulatio.Outbox.Leases.{OutboxRecord}

-- `int` and `float` on the texts that occur here, with seconds in microseconds.
abbrev int_of : String → Option ℕ
int_of text = lookup text (("100", 100) ∷ ("60", 60) ∷ ("7", 7) ∷ [])

abbrev float_of : String → Option ℕ
float_of text =
    lookup text (("0.5", 500000) ∷ ("1", 1000000) ∷ ("60", 60000000) ∷ ("90", 90000000) ∷ [])

-- One setting of the scheduler.
abbrev environment : Dict String String
environment = ("SCHEDULER_BATCH_SIZE", "7") ∷ []

abbrev tuning : SchedulerTuning
tuning = record {
  batch_size = 7;
  claim_lease_seconds = 60;
  poll_interval_seconds = 500000;
  recovery_batch_size = 100;
}

tuning_is_read : scheduler_tuning_from_env int_of float_of environment ≡ ok tuning
unfolding scheduler_tuning_from_env scheduler_group lookup
tuning_is_read = refl

scheduler_worker-from_env_example :
    (scheduler_worker "host" tuning ≡ ok (worker_of "host" tuning)) × (1 ≤ 7)
scheduler_worker-from_env_example =
    scheduler_worker-from_env int_of float_of environment "host" tuning refl tuning_is_read

-- An initial wait above the maximum is refused.
abbrev impatient : Dict String String
impatient = ("OUTBOX_RETRY_INITIAL_SECONDS", "90") ∷ []

impatient_is_refused :
    outbox_tuning_from_env int_of float_of impatient
    ≡ raised (configuration_error "outbox tuning values must be numeric")
unfolding outbox_tuning_from_env outbox_group lookup
impatient_is_refused = refl

abbrev outbox : OutboxTuning
outbox = record { batch_size = 100; retry_initial_seconds = 1000000; retry_max_seconds = 60000000 }

abbrev leased : OutboxRecord
leased = record {
  event_id = "e1";
  topic = "t";
  message_key = "job-1";
  payload = make_event "e1" job_created 10 11 "job-1";
  lease_token = "token";
  attempts = 20;
}

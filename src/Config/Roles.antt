-- ===== src/Config/Roles.antt =====
-- What the roles of src/job_visibility/runtime.py make of the settings that they read.
use job_scheduling_simulatio.Prelude.{ℕ, String, true, false, Result}
use job_scheduling_simulatio.Model.{Error}
use job_scheduling_simulatio.Config.Groups.{SchedulerTuning, OutboxTuning}
use job_scheduling_simulatio.Scheduler.Types.{SchedulerService, default_retry_delay}
use job_scheduling_simulatio.Scheduler.Worker.{SchedulerWorker, check_worker}
use job_scheduling_simulatio.Outbox.Leases.{OutboxPublisher}

-- The worker of the role `scheduler`; `owner` is the name of the host, or what the environment says.
abbrev pub worker_of : String → SchedulerTuning → SchedulerWorker
worker_of owner tuning = record {
  owner = owner;
  batch_size = tuning.batch_size;
  recovery_batch_size = tuning.recovery_batch_size;
  poll_interval = tuning.poll_interval_seconds;
}

unfoldable pub scheduler_worker : String → SchedulerTuning → Result Error SchedulerWorker
unfolding check_worker
scheduler_worker owner tuning = check_worker (worker_of owner tuning)

-- The service of the role `scheduler`.
unfoldable pub scheduler_service : (ℕ → String) → SchedulerTuning → SchedulerService
scheduler_service uuid tuning = record {
  topic = "job-lifecycle-edr.v1";
  claim_lease_seconds = tuning.claim_lease_seconds;
  retry_delay = default_retry_delay;
  uuid = uuid;
}

-- The publisher of the role `publisher`.
unfoldable pub outbox_publisher : OutboxTuning → OutboxPublisher
outbox_publisher tuning = record {
  owner = "publisher";
  batch_size = tuning.batch_size;
  lease_seconds = 30;
  retry_initial = tuning.retry_initial_seconds;
  float_retry = true;
  retry_max = tuning.retry_max_seconds;
  stopping = false;
}

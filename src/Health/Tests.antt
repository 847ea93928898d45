-- ===== src/Health/Tests.antt =====
-- Concrete checks of src/job_visibility/observability/health.py.
use job_scheduling_simulatio.Prelude.{
  ℕ, ◌≡◌, refl, true, false, some, [], ◌∷◌, nat_key, text_key, lookup,
}
use job_scheduling_simulatio.Model.{code_key}
use job_scheduling_simulatio.Journal.Tables.{EdrRow, EdrDatabase}
use job_scheduling_simulatio.Scheduler.Types.{Database}
use job_scheduling_simulatio.Health.Checks.{
  HealthService, Conditions, due_times, unpublished_times, unprojected_times, check,
}
use job_scheduling_simulatio.Health.Ready.{Fresh, check-Fresh}

-- An unprojected event that has waited for thirty seconds.
abbrev waiting_event : EdrRow
waiting_event = record {
  event_id = "e1";
  job_id = "job-1";
  canonical_payload = [];
  persisted_at = 20000000;
}

abbrev edr : EdrDatabase
edr = record {
  events = waiting_event ∷ [];
  projected = [];
  visibility = [];
  attempts = [];
  decisions = [];
  findings = [];
}

abbrev scheduler : Database
scheduler = record { jobs = []; attempts = []; outbox = []; drawn = 0 }

abbrev service : ℕ → HealthService
service threshold = record {
  scheduler = some scheduler;
  edr = some edr;
  oldest_due_seconds = 120;
  oldest_outbox_seconds = 60;
  oldest_unprojected_seconds = threshold;
  connector_status =
      some (some (record { connector = some "RUNNING"; tasks = some "RUNNING" ∷ [] }));
  dlq_growth = some (some 0);
  dlq_growth_limit = 0;
}

abbrev conditions : Conditions
conditions = record { raises = λ name. false; database_clock = 50000000; clock = λ name. 50000000 }

patient_is_ready : (check (service 60) conditions).0 ≡ true
unfolding check lookup
patient_is_ready = refl

impatient_is_degraded : (check (service 20) conditions).0 ≡ false
unfolding check lookup
impatient_is_degraded = refl

check-Fresh_example :
    Fresh 50000000 120 (due_times 50000000 scheduler)
    × Fresh 50000000 60 (unpublished_times scheduler)
    × Fresh 50000000 60 (unprojected_times edr)
check-Fresh_example = check-Fresh (service 60) conditions scheduler edr refl refl patient_is_ready

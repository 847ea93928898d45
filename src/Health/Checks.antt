-- ===== src/Health/Checks.antt =====
-- `HealthService` of src/job_visibility/observability/health.py. The databases that it queries are part
-- of its record, as are the answers of its dependencies; `raises` says which query raises, by the name
-- of its check, and `clock` is the time at which the age of a queue is taken.
use job_scheduling_simulatio.Prelude.{
  ℕ, ◌-◌, min, String, Bool, true, false, not, ◌&&◌, Option, none, some, List, [], ◌∷◌, ◌++◌, map,
  leb, if◌then◌else◌, is_some, ◌==◌, nat_key, text_key, length, select, lookup, values,
}
use job_scheduling_simulatio.Model.{Time, seconds, code_key}
use job_scheduling_simulatio.Journal.Tables.{EdrRow, EdrDatabase}
use job_scheduling_simulatio.Scheduler.Types.{is_claimable, JobRow, OutboxRow, Database}

-- What `connector_status` returns: the state of the connector and those of its tasks.
pub record ConnectorStatus : Type 0 where
  pub connector : Option String
  pub tasks : List (Option String)

pub record HealthService : Type 0 where
  pub scheduler : Option Database
  pub edr : Option EdrDatabase
  pub oldest_due_seconds : ℕ
  pub oldest_outbox_seconds : ℕ
  pub oldest_unprojected_seconds : ℕ
  pub connector_status : Option (Option ConnectorStatus)
  pub dlq_growth : Option (Option ℕ)
  pub dlq_growth_limit : ℕ

pub record Conditions : Type 0 where
  pub raises : String → Bool
  pub database_clock : Time
  pub clock : String → Time

-- `json_build_object('count',count(*),'oldest',min(…))`.
pub record Queue : Type 0 where
  pub count : ℕ
  pub oldest : Option Time

-- What `evaluate_queue` returns; the age is not rounded here.
pub record QueueReport : Type 0 where
  pub queue : Queue
  pub age : Time
  pub threshold_seconds : ℕ
  pub healthy : Bool

pub data CheckValue : Type 0 where
  failed passed : CheckValue
  queue_report : QueueReport → CheckValue
  connector_report : ConnectorStatus → Bool → CheckValue
  dlq_report : ℕ → ℕ → Bool → CheckValue

-- `min(…)` over the rows of a query.
unfoldable pub oldest_of : List Time → Option Time
oldest_of [] = none
oldest_of (t ∷ ts) = some (elim (oldest_of ts) [ none ↦ t | some u ↦ min t u ])

unfoldable pub queue_of : List Time → Queue
unfolding oldest_of
queue_of times = record { count = length times; oldest = oldest_of times }

-- The rows of the three queries, each by the time that it takes the minimum of.
unfoldable pub due_times : Time → Database → List Time
due_times now db =
    map (λ (row : JobRow). row.available_at)
      (select (λ row. is_claimable row.status && leb row.available_at now) (values db.jobs))

unfoldable pub unpublished_times : Database → List Time
unpublished_times db =
    map (λ (row : OutboxRow). row.created_at)
      (select (λ row. not (is_some row.published_at)) db.outbox)

unfoldable pub unprojected_times : EdrDatabase → List Time
unprojected_times db =
    map (λ (row : EdrRow). row.persisted_at)
      (select (λ row. not (is_some (lookup row.event_id db.projected))) db.events)

-- `max(0.0, (now - oldest).total_seconds()) if oldest else 0.0`.
abbrev pub age_of : Option Time → Time → Time
age_of none now = 0
age_of (some oldest) now = now - oldest

-- `evaluate_queue`.
unfoldable pub evaluate_queue : Queue → ℕ → Time → QueueReport
evaluate_queue value threshold now =
    let age = age_of value.oldest now in
    record {
      queue = value;
      age = age;
      threshold_seconds = threshold;
      healthy = leb age (seconds threshold);
    }

-- `_queue`.
unfoldable pub queue_check : Conditions → String → List Time → ℕ → CheckValue
unfolding queue_of evaluate_queue
queue_check conditions name times threshold =
    if conditions.raises name
    then failed
    else queue_report (evaluate_queue (queue_of times) threshold (conditions.clock name))

-- `_query`.
abbrev pub query_check : Conditions → String → CheckValue
query_check conditions name = if conditions.raises name then failed else passed

abbrev pub is_running_state : Option String → Bool
is_running_state none = false
is_running_state (some state) = state == "RUNNING"

abbrev pub all_running : List (Option String) → Bool
all_running [] = true
all_running (task ∷ tasks) = is_running_state task && all_running tasks

-- `_dependency`.
unfoldable pub connector_check : Option ConnectorStatus → CheckValue
connector_check none = failed
connector_check (some status) =
    connector_report status (is_running_state status.connector && all_running status.tasks)

-- `_dlq`.
unfoldable pub dlq_check : Option ℕ → ℕ → CheckValue
dlq_check none limit = failed
dlq_check (some growth) limit = dlq_report growth limit (leb growth limit)

-- The checks, by name, in the order in which they are made.
abbrev pub Checks : Type 0
Checks = List (String × CheckValue)

unfoldable pub scheduler_checks : HealthService → Conditions → Option Database → Checks
unfolding queue_check due_times unpublished_times
scheduler_checks service conditions none = []
scheduler_checks service conditions (some db) =
    ("schedulerDatabase", query_check conditions "schedulerDatabase")
    ∷ (
      "dueJobs",
      queue_check conditions "dueJobs" (due_times conditions.database_clock db)
          service.oldest_due_seconds,
    )
    ∷ (
      "outbox",
      queue_check conditions "outbox" (unpublished_times db) service.oldest_outbox_seconds,
    )
    ∷ []

unfoldable pub edr_checks : HealthService → Conditions → Option EdrDatabase → Checks
unfolding queue_check unprojected_times
edr_checks service conditions none = []
edr_checks service conditions (some db) =
    ("edrDatabase", query_check conditions "edrDatabase")
    ∷ (
      "projection",
      queue_check conditions "projection" (unprojected_times db) service.oldest_unprojected_seconds,
    )
    ∷ []

unfoldable pub connector_checks : Option (Option ConnectorStatus) → Checks
unfolding connector_check
connector_checks none = []
connector_checks (some status) = ("connector", connector_check status) ∷ []

unfoldable pub dlq_checks : Option (Option ℕ) → ℕ → Checks
unfolding dlq_check
dlq_checks none limit = []
dlq_checks (some growth) limit = ("dlq", dlq_check growth limit) ∷ []

-- `value is not False and not (isinstance(value, dict) and value.get("healthy") is False)`.
abbrev pub is_healthy : CheckValue → Bool
is_healthy failed = false
is_healthy passed = true
is_healthy (queue_report report) = report.healthy
is_healthy (connector_report status healthy) = healthy
is_healthy (dlq_report growth limit healthy) = healthy

unfoldable pub all_healthy : Checks → Bool
all_healthy [] = true
all_healthy ((name, value) ∷ rest) = is_healthy value && all_healthy rest

-- `check`: whether the service is ready, and its checks.
unfoldable pub check : HealthService → Conditions → Bool × Checks
unfolding scheduler_checks edr_checks connector_checks dlq_checks all_healthy
check service conditions =
    let checks =
      scheduler_checks service conditions service.scheduler
      ++ (edr_checks service conditions service.edr
          ++ (connector_checks service.connector_status
              ++ dlq_checks service.dlq_growth service.dlq_growth_limit)) in
    (all_healthy checks, checks)

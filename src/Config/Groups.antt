-- ===== src/Config/Groups.antt =====
-- The groups of settings of src/job_visibility/config.py and what their construction tests. A time is
-- in microseconds where the source has seconds as a decimal number; a number is never negative.
use job_scheduling_simulatio.Prelude.{
  ℕ, ◌*◌, String, Bool, true, ◌&&◌, List, [], ◌∷◌, ltb, leb, if◌then◌else◌, Result, ok, raised,
}
use job_scheduling_simulatio.Model.{Time, seconds, Error, value_error}

-- `DatabaseConfig`.
pub record DatabaseConfig : Type 0 where
  pub url : String
  pub pool_size : ℕ
  pub max_overflow : ℕ
  pub pool_timeout_seconds : Time
  pub connect_timeout_seconds : ℕ
  pub statement_timeout_ms : ℕ
  pub lock_timeout_ms : ℕ
  pub idle_transaction_timeout_ms : ℕ
  pub transaction_timeout_ms : ℕ

-- `DatabaseConfig(url=…)`.
abbrev pub default_database : String → DatabaseConfig
default_database url = record {
  url = url;
  pool_size = 5;
  max_overflow = 5;
  pool_timeout_seconds = seconds 30;
  connect_timeout_seconds = 5;
  statement_timeout_ms = 15000;
  lock_timeout_ms = 5000;
  idle_transaction_timeout_ms = 30000;
  transaction_timeout_ms = 30000;
}

abbrev all_positive : List ℕ → Bool
all_positive [] = true
all_positive (n ∷ rest) = ltb 0 n && all_positive rest

-- A group is built if its fields are in range and its validator accepts it.
abbrev pub accept {ℓ} : {A : Type ℓ} → Bool → Bool → A → Result Error A
accept in_range accepted value =
    if in_range then (if accepted then ok value else raised value_error) else raised value_error

-- The fields of `DatabaseConfig`, with `validate_deadlines`.
unfoldable pub check_database : DatabaseConfig → Result Error DatabaseConfig
check_database config =
    accept
      (all_positive (
        config.pool_size ∷ config.pool_timeout_seconds ∷ config.connect_timeout_seconds
        ∷ config.statement_timeout_ms ∷ config.lock_timeout_ms ∷ config.idle_transaction_timeout_ms
        ∷ config.transaction_timeout_ms ∷ []))
      (leb config.lock_timeout_ms config.statement_timeout_ms
        && leb config.statement_timeout_ms config.transaction_timeout_ms)
      config

-- `KafkaConfig`.
pub record KafkaConfig : Type 0 where
  pub bootstrap_servers : String
  pub edr_topic : String
  pub edr_dlq_topic : String
  pub consumer_group : String
  pub schema_registry_url : String
  pub socket_timeout_ms : ℕ
  pub request_timeout_ms : ℕ
  pub delivery_timeout_ms : ℕ
  pub metadata_timeout_ms : ℕ
  pub flush_timeout_seconds : Time
  pub schema_registry_connect_timeout_seconds : Time
  pub schema_registry_read_timeout_seconds : Time

-- `KafkaConfig()`.
abbrev pub default_kafka : KafkaConfig
default_kafka = record {
  bootstrap_servers = "localhost:9092";
  edr_topic = "job-lifecycle-edr.v1";
  edr_dlq_topic = "job-lifecycle-edr-dlq.v1";
  consumer_group = "job-visibility-projector-v1";
  schema_registry_url = "http://localhost:8081";
  socket_timeout_ms = 10000;
  request_timeout_ms = 10000;
  delivery_timeout_ms = 30000;
  metadata_timeout_ms = 10000;
  flush_timeout_seconds = seconds 10;
  schema_registry_connect_timeout_seconds = seconds 5;
  schema_registry_read_timeout_seconds = seconds 10;
}

-- Milliseconds as a time.
abbrev pub milliseconds : ℕ → Time
milliseconds n = n * 1000

-- The fields of `KafkaConfig`, with `validate_deadlines`.
unfoldable pub check_kafka : KafkaConfig → Result Error KafkaConfig
check_kafka config =
    accept
      (all_positive (
        config.socket_timeout_ms ∷ config.request_timeout_ms ∷ config.delivery_timeout_ms
        ∷ config.metadata_timeout_ms ∷ config.flush_timeout_seconds
        ∷ config.schema_registry_connect_timeout_seconds
        ∷ config.schema_registry_read_timeout_seconds ∷ []))
      (leb config.request_timeout_ms config.delivery_timeout_ms
        && leb config.flush_timeout_seconds (milliseconds config.delivery_timeout_ms))
      config

-- `CassandraConfig`.
pub record CassandraConfig : Type 0 where
  pub contact_points : List String
  pub port : ℕ
  pub keyspace : String
  pub consistency : String
  pub request_timeout_ms : ℕ
  pub execution_timeout_ms : ℕ
  pub max_record_count : ℕ
  pub max_input_number : ℕ
  pub page_size : ℕ
  pub read_concurrency : ℕ
  pub max_processing_delay_ms : ℕ
  pub conditional_retry_limit : ℕ

-- `CassandraConfig()`.
abbrev pub default_cassandra : CassandraConfig
default_cassandra = record {
  contact_points = "localhost" ∷ [];
  port = 9042;
  keyspace = "worker_demo";
  consistency = "LOCAL_QUORUM";
  request_timeout_ms = 2000;
  execution_timeout_ms = 30000;
  max_record_count = 10000;
  max_input_number = 10000;
  page_size = 500;
  read_concurrency = 8;
  max_processing_delay_ms = 5000;
  conditional_retry_limit = 3;
}

-- The fields of `CassandraConfig`, with `validate_bounds`.
unfoldable pub check_cassandra : CassandraConfig → Result Error CassandraConfig
check_cassandra config =
    accept
      (all_positive (
          config.port ∷ config.request_timeout_ms ∷ config.execution_timeout_ms
          ∷ config.max_record_count ∷ config.page_size ∷ config.read_concurrency ∷ [])
        && leb config.port 65535)
      (leb config.request_timeout_ms config.execution_timeout_ms
        && leb config.page_size config.max_record_count)
      config

-- `SchedulerTuning`.
pub record SchedulerTuning : Type 0 where
  pub batch_size : ℕ
  pub claim_lease_seconds : ℕ
  pub poll_interval_seconds : Time
  pub recovery_batch_size : ℕ

unfoldable pub check_scheduler : SchedulerTuning → Result Error SchedulerTuning
check_scheduler tuning =
    accept
      (all_positive (
        tuning.batch_size ∷ tuning.claim_lease_seconds ∷ tuning.poll_interval_seconds
        ∷ tuning.recovery_batch_size ∷ []))
      true tuning

-- `OutboxTuning`.
pub record OutboxTuning : Type 0 where
  pub batch_size : ℕ
  pub retry_initial_seconds : Time
  pub retry_max_seconds : Time

-- The fields of `OutboxTuning`, with `validate_retry_range`.
unfoldable pub check_outbox : OutboxTuning → Result Error OutboxTuning
check_outbox tuning =
    accept
      (all_positive
        (tuning.batch_size ∷ tuning.retry_initial_seconds ∷ tuning.retry_max_seconds ∷ []))
      (leb tuning.retry_initial_seconds tuning.retry_max_seconds) tuning

-- `SinkTuning`.
pub record SinkTuning : Type 0 where
  pub batch_size : ℕ
  pub max_retries : ℕ
  pub retry_backoff_ms : ℕ

unfoldable pub check_sink : SinkTuning → Result Error SinkTuning
check_sink tuning =
    accept (all_positive (tuning.batch_size ∷ tuning.retry_backoff_ms ∷ [])) true tuning

-- `ProjectionTuning`.
pub record ProjectionTuning : Type 0 where
  pub batch_size : ℕ

unfoldable pub check_projection : ProjectionTuning → Result Error ProjectionTuning
check_projection tuning = accept (all_positive (tuning.batch_size ∷ [])) true tuning

-- `ReconciliationTuning`.
pub record ReconciliationTuning : Type 0 where
  pub batch_size : ℕ
  pub interval_seconds : ℕ

unfoldable pub check_reconciliation : ReconciliationTuning → Result Error ReconciliationTuning
check_reconciliation tuning =
    accept (all_positive (tuning.batch_size ∷ tuning.interval_seconds ∷ [])) true tuning

-- `ObservabilityTuning`.
pub record ObservabilityTuning : Type 0 where
  pub oldest_due_seconds : ℕ
  pub oldest_outbox_seconds : ℕ
  pub oldest_unprojected_seconds : ℕ
  pub dlq_growth_limit : ℕ

unfoldable pub check_observability : ObservabilityTuning → Result Error ObservabilityTuning
check_observability tuning =
    accept
      (all_positive (
        tuning.oldest_due_seconds ∷ tuning.oldest_outbox_seconds ∷ tuning.oldest_unprojected_seconds
        ∷ []))
      true tuning

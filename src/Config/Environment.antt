-- ===== src/Config/Environment.antt =====
-- The groups of settings that processes read of their environment: the `…_from_env` functions of
-- src/job_visibility/config.py whose exceptions all become a `ConfigurationError`. `int_of` and
-- `float_of` are Python's `int` and `float`; they give nothing where those raise or the number is
-- negative, which every group refuses.
use job_scheduling_simulatio.Prelude.{
  ℕ, String, Option, none, some, nat_key, text_key, Dict, lookup, values, Result, ok, raised,
}
use job_scheduling_simulatio.Model.{Error, code_key, value_error}
use job_scheduling_simulatio.Config.Groups.{
  KafkaConfig, check_kafka, SchedulerTuning, check_scheduler, OutboxTuning, check_outbox,
  ProjectionTuning, check_projection,
}

-- `ConfigurationError`, with its message.
pub data ConfigurationError : Type 0 where
  configuration_error : String → ConfigurationError

-- `values.get(name, default)`.
unfoldable pub get_or : Dict String String → String → String → String
get_or values name default = elim (lookup name values) [ none ↦ default | some text ↦ text ]

-- A setting that can be read, for what follows.
abbrev pub read_number {ℓ} : {A : Type ℓ} → Option ℕ → (ℕ → Result Error A) → Result Error A
read_number none rest = raised value_error
read_number (some n) rest = rest n

-- `except ValueError as exc: raise ConfigurationError(…) from exc`.
abbrev pub configured {ℓ} : {A : Type ℓ} → String → Result Error A → Result ConfigurationError A
configured message (ok group) = ok group
configured message (raised error) = raised (configuration_error message)

-- The arguments of `SchedulerTuning(…)`.
unfoldable pub scheduler_group :
    Option ℕ → Option ℕ → Option ℕ → Option ℕ → Result Error SchedulerTuning
unfolding check_scheduler
scheduler_group batch_size claim_lease interval recovery = read_number batch_size λ n.
    read_number claim_lease λ lease. read_number interval λ pause. read_number recovery λ limit.
      check_scheduler (record {
        batch_size = n;
        claim_lease_seconds = lease;
        poll_interval_seconds = pause;
        recovery_batch_size = limit;
      })

-- The arguments of `OutboxTuning(…)`.
unfoldable pub outbox_group : Option ℕ → Option ℕ → Option ℕ → Result Error OutboxTuning
unfolding check_outbox
outbox_group batch_size initial maximum = read_number batch_size λ n. read_number initial λ first.
    read_number maximum λ last.
      check_outbox
        (record { batch_size = n; retry_initial_seconds = first; retry_max_seconds = last })

module _ (int_of float_of : String → Option ℕ) (values : Dict String String) where
  -- `scheduler_tuning_from_env`.
  unfoldable pub scheduler_tuning_from_env : Result ConfigurationError SchedulerTuning
  unfolding get_or
  scheduler_tuning_from_env = configured "scheduler tuning values must be numeric" (
      scheduler_group (int_of (get_or values "SCHEDULER_BATCH_SIZE" "100"))
        (int_of (get_or values "SCHEDULER_CLAIM_LEASE_SECONDS" "60"))
        (float_of (get_or values "SCHEDULER_POLL_INTERVAL_SECONDS" "0.5"))
        (int_of (get_or values "SCHEDULER_RECOVERY_BATCH_SIZE" "100")))

  -- `kafka_config_from_env`.
  unfoldable pub kafka_config_from_env : Result ConfigurationError KafkaConfig
  unfolding get_or check_kafka
  kafka_config_from_env = configured "Kafka tuning values must be numeric" (
      read_number (int_of (get_or values "KAFKA_SOCKET_TIMEOUT_MS" "10000")) λ socket.
        read_number (int_of (get_or values "KAFKA_REQUEST_TIMEOUT_MS" "10000")) λ request.
          read_number (int_of (get_or values "KAFKA_DELIVERY_TIMEOUT_MS" "30000")) λ delivery.
            read_number (int_of (get_or values "KAFKA_METADATA_TIMEOUT_MS" "10000")) λ metadata.
              read_number (float_of (get_or values "KAFKA_FLUSH_TIMEOUT_SECONDS" "10")) λ flush.
                read_number (float_of (get_or values "SCHEMA_REGISTRY_CONNECT_TIMEOUT_SECONDS" "5"))
                  λ connect.
                    read_number
                      (float_of (get_or values "SCHEMA_REGISTRY_READ_TIMEOUT_SECONDS" "10"))
                      λ reading. check_kafka (record {
                        bootstrap_servers =
                            get_or values "KAFKA_BOOTSTRAP_SERVERS" "localhost:9092";
                        edr_topic = get_or values "KAFKA_EDR_TOPIC" "job-lifecycle-edr.v1";
                        edr_dlq_topic =
                            get_or values "KAFKA_EDR_DLQ_TOPIC" "job-lifecycle-edr-dlq.v1";
                        consumer_group =
                            get_or values "KAFKA_CONSUMER_GROUP" "job-visibility-projector-v1";
                        schema_registry_url =
                            get_or values "SCHEMA_REGISTRY_URL" "http://localhost:8081";
                        socket_timeout_ms = socket;
                        request_timeout_ms = request;
                        delivery_timeout_ms = delivery;
                        metadata_timeout_ms = metadata;
                        flush_timeout_seconds = flush;
                        schema_registry_connect_timeout_seconds = connect;
                        schema_registry_read_timeout_seconds = reading;
                      }))

  -- `outbox_tuning_from_env`.
  unfoldable pub outbox_tuning_from_env : Result ConfigurationError OutboxTuning
  unfolding get_or
  outbox_tuning_from_env = configured "outbox tuning values must be numeric" (
      outbox_group (int_of (get_or values "OUTBOX_BATCH_SIZE" "100"))
        (float_of (get_or values "OUTBOX_RETRY_INITIAL_SECONDS" "1"))
        (float_of (get_or values "OUTBOX_RETRY_MAX_SECONDS" "60")))

  -- `projection_tuning_from_env`.
  unfoldable pub projection_tuning_from_env : Result ConfigurationError ProjectionTuning
  unfolding get_or check_projection
  projection_tuning_from_env = configured "projection tuning values must be numeric" (
      read_number (int_of (get_or values "PROJECTION_BATCH_SIZE" "500"))
        λ batch_size. check_projection (record { batch_size = batch_size }))

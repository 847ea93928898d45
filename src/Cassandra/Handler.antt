-- ===== src/Cassandra/Handler.antt =====
-- `select_records` of src/job_visibility/scheduler/cassandra_client.py, and the handler that
-- src/job_visibility/scheduler/cassandra_workload.py builds. A client is an argument of the handler, as
-- its protocol is; reading JSON, UUIDs and SHA-256 belong to the standard library.
use Prim.Native.Nat.{◌%◌}
use Prim.Native.String.{◌++◌ as text_append}
use job_scheduling_simulatio.Prelude.{
  ℕ, String, Bool, true, false, not, ◌&&◌, ◌||◌, Option, none, some, List, [], ◌∷◌, ltb, leb,
  if◌then◌else◌, ◌==◌, nat_key, text_key, length, Result, ok, raised,
}
use job_scheduling_simulatio.Config.Groups.{CassandraConfig}
use job_scheduling_simulatio.Scheduler.Types.{ClaimedJob, HandlerError}
use job_scheduling_simulatio.Workload.Fibonacci.{fibonacci}
use job_scheduling_simulatio.Cassandra.Client.{ClientError, operation_failed}
use job_scheduling_simulatio.Cassandra.Records.{WorkloadRecord, StoredRecord}

-- A value of a JSON object: a key may be missing, and a number may be negative.
pub data JsonValue : Type 0 where
  missing other_value : JsonValue
  natural negative : ℕ → JsonValue
  string : String → JsonValue

-- What the handler reads of a payload.
pub record WorkloadPayload : Type 0 where
  pub dataset_id : JsonValue
  pub record_count : JsonValue
  pub seed : JsonValue
  pub processing_delay_ms : JsonValue

-- A row of `datasets`.
pub record Dataset : Type 0 where
  pub record_count : ℕ
  pub bucket_count : ℕ

-- The selected rows: those that the reads have found, under their keys.
unfoldable pub found_records :
    (ℕ → ℕ → Option StoredRecord) → String → ℕ → List ℕ → List WorkloadRecord
found_records row_of dataset_id buckets [] = []
found_records row_of dataset_id buckets (id ∷ ids) =
    let rest = found_records row_of dataset_id buckets ids in
    elim (row_of (id % buckets) id) [
      | none ↦ rest
      | some row ↦
          record {
            dataset_id = dataset_id;
            bucket = id % buckets;
            record_id = id;
            input_number = row.input_number;
            checksum = row.checksum;
          }
          ∷ rest
    ]

-- `select_records` over the rows of a dataset; `sample` is `random.Random(seed).sample`. A bucket count
-- of zero divides by zero.
unfoldable pub select_records :
    Option Dataset
    → (ℕ → ℕ → Option StoredRecord)
    → (JsonValue → ℕ → ℕ → List ℕ)
    → String
    → ℕ
    → JsonValue
    → Result ClientError (List WorkloadRecord)
unfolding found_records
select_records none row_of sample dataset_id record_count seed = ok []
select_records (some metadata) row_of sample dataset_id record_count seed =
    if ltb metadata.record_count record_count
    then ok []
    else if metadata.bucket_count == 0 && ltb 0 record_count
    then raised operation_failed
    else ok (
        found_records row_of dataset_id metadata.bucket_count
          (sample seed metadata.record_count record_count))

-- `CassandraWorkloadClient`, over the state `S` that its calls share.
pub record WorkloadClient (S : Type 0) : Type 0 where
  pub select : S → String → ℕ → JsonValue → Result ClientError (List WorkloadRecord)
  pub apply : S → WorkloadRecord → String → String → S × Result ClientError (Bool × ℕ)

abbrev refusal : String → HandlerError
refusal code = record { code = code; retryable = false }

abbrev transient : String → HandlerError
transient code = record { code = code; retryable = true }

-- What the handler raises: a `HandlerError`, or an exception of the selection, which it lets through.
pub data WorkloadError : Type 0 where
  handler_error : HandlerError → WorkloadError
  selection_failed : WorkloadError

-- The settings that a payload gives, once it is tested.
pub record Settings : Type 0 where
  pub dataset_id : String
  pub record_count : ℕ
  pub seed : JsonValue
  pub delay_ms : ℕ

abbrev pub dataset_of : JsonValue → Option String
dataset_of (string text) = if text == "" then none else some text
dataset_of _ = none

abbrev pub in_range : ℕ → ℕ → JsonValue → Option ℕ
in_range low high (natural n) = if leb low n && leb n high then some n else none
in_range low high _ = none

abbrev pub integer_of : JsonValue → Option JsonValue
integer_of (natural n) = some (natural n)
integer_of (negative n) = some (negative n)
integer_of _ = none

-- `payload.get("processingDelayMs", 0)`.
abbrev pub or_zero : JsonValue → JsonValue
or_zero missing = natural 0
or_zero value = value

abbrev pub need {ℓ κ} :
    {A : Type ℓ} {B : Type κ}
    → Option A
    → String
    → (A → Result WorkloadError B)
    → Result WorkloadError B
need none code rest = raised (handler_error (refusal code))
need (some a) code rest = rest a

-- The tests of the payload, in their order.
unfoldable pub read_settings : CassandraConfig → WorkloadPayload → Result WorkloadError Settings
read_settings config payload = need (dataset_of payload.dataset_id) "INVALID_DATASET" λ dataset_id.
    need (in_range 1 config.max_record_count payload.record_count) "INVALID_RECORD_COUNT"
      λ record_count. need (integer_of payload.seed) "INVALID_SEED" λ seed.
        need (in_range 0 config.max_processing_delay_ms (or_zero payload.processing_delay_ms))
          "INVALID_PROCESSING_DELAY"
          λ delay_ms. ok (record {
            dataset_id = dataset_id;
            record_count = record_count;
            seed = seed;
            delay_ms = delay_ms;
          })

-- The key `(input_number, -bucket, -record_id)` of one record is at most that of another.
abbrev pub key_le : WorkloadRecord → WorkloadRecord → Bool
key_le a b =
    ltb a.input_number b.input_number
    || a.input_number == b.input_number
      && (ltb b.bucket a.bucket || b.bucket == a.bucket && leb b.record_id a.record_id)

-- `max(records, key=…)` after a first record: a later one is taken only if its key is greater.
unfoldable pub greatest : WorkloadRecord → List WorkloadRecord → WorkloadRecord
greatest best [] = best
greatest best (next ∷ rest) = greatest (if key_le next best then best else next) rest

-- `stable_operation_id`; `uuid5` is the name-based UUID in the namespace of URLs.
unfoldable pub stable_operation_id : (String → String) → ClaimedJob → String
stable_operation_id uuid5 job =
    uuid5 (text_append "job-visibility:cassandra-fib-update:v1:" job.job_id)

-- The summary, with the text of the result in place of its digest.
pub record WorkloadSummary : Type 0 where
  pub rows : ℕ
  pub maximum : ℕ
  pub bucket : ℕ
  pub record_id : ℕ
  pub operation_id : String
  pub previous_checksum : ℕ
  pub checksum : ℕ
  pub delay_ms : ℕ
  pub result : String

-- What is made of the answer of `apply_once`.
unfoldable pub summarize :
    Settings
    → List WorkloadRecord
    → WorkloadRecord
    → String
    → String
    → Result ClientError (Bool × ℕ)
    → Result WorkloadError WorkloadSummary
summarize settings records selected operation_id result (raised error) =
    raised (handler_error (transient "CASSANDRA_OPERATION_FAILED"))
summarize settings records selected operation_id result (ok (written, checksum)) =
    if written
    then ok (record {
      rows = length records;
      maximum = selected.input_number;
      bucket = selected.bucket;
      record_id = selected.record_id;
      operation_id = operation_id;
      previous_checksum = selected.checksum;
      checksum = checksum;
      delay_ms = settings.delay_ms;
      result = result;
    })
    else raised (handler_error (transient "CASSANDRA_CONDITIONAL_CONFLICT"))

-- The handler after the selection; `text_of` writes a number as `str` does. The pause of the
-- processing delay changes nothing.
module _ {S : Type 0} (client : WorkloadClient S) (config : CassandraConfig)
    (text_of : ℕ → String) where
  unfoldable pub update_selected :
      Settings
      → String
      → List WorkloadRecord
      → WorkloadRecord
      → S
      → S × Result WorkloadError WorkloadSummary
  unfolding summarize fibonacci
  update_selected settings operation_id records selected state =
      if ltb config.max_input_number selected.input_number
      then (state, raised (handler_error (refusal "INPUT_BOUND_EXCEEDED")))
      else let result = text_of (fibonacci selected.input_number) in
        let (next, answer) = client.apply state selected operation_id result in
        (next, summarize settings records selected operation_id result answer)

  unfoldable pub update_records :
      Settings → String → List WorkloadRecord → S → S × Result WorkloadError WorkloadSummary
  unfolding update_selected greatest
  update_records settings operation_id [] state =
      (state, raised (handler_error (refusal "RECORD_COUNT_MISMATCH")))
  update_records settings operation_id (first ∷ rest) state =
      if not (length (first ∷ rest) == settings.record_count)
      then (state, raised (handler_error (refusal "RECORD_COUNT_MISMATCH")))
      else update_selected settings operation_id (first ∷ rest) (greatest first rest) state

  unfoldable pub run_selection :
      Settings
      → String
      → Result ClientError (List WorkloadRecord)
      → S
      → S × Result WorkloadError WorkloadSummary
  unfolding update_records
  run_selection settings operation_id (raised error) state = (state, raised selection_failed)
  run_selection settings operation_id (ok records) state =
      update_records settings operation_id records state

  unfoldable pub run_settings :
      Result WorkloadError Settings → String → S → S × Result WorkloadError WorkloadSummary
  unfolding run_selection
  run_settings (raised error) operation_id state = (state, raised error)
  run_settings (ok settings) operation_id state =
      run_selection settings operation_id
        (client.select state settings.dataset_id settings.record_count settings.seed) state

  -- `execute` of `build_cassandra_handler`, with the operation id of its job.
  unfoldable pub execute_workload :
      WorkloadPayload → String → S → S × Result WorkloadError WorkloadSummary
  unfolding run_settings read_settings
  execute_workload payload operation_id state =
      run_settings (read_settings config payload) operation_id state

-- ===== src/Cassandra/Records.antt =====
-- A record of the tables `records_by_bucket` and `update_operations_by_bucket`, and the prepared
-- statements of src/job_visibility/scheduler/cassandra_client.py on it. All of them name one record by
-- its full key, so a `Cell` is what the keyspace holds under that key. UUIDs stand by their texts.
use mathlib.Core.Option
use job_scheduling_simulatio.Prelude.{
  ℕ, ◌+◌, ◌-◌, String, Bool, true, false, not, ◌&&◌, Option, none, some, if◌then◌else◌, is_some,
  ◌==◌, nat_key, text_key, Dict, lookup, insert,
}
use job_scheduling_simulatio.Model.{code_key}

-- `WorkloadRecord`.
pub record WorkloadRecord : Type 0 where
  pub dataset_id : String
  pub bucket : ℕ
  pub record_id : ℕ
  pub input_number : ℕ
  pub checksum : ℕ

-- A row of `records_by_bucket`; its columns of the key are those of the cell.
pub record StoredRecord : Type 0 where
  pub input_number : ℕ
  pub checksum : ℕ
  pub fibonacci_result : Option String
  pub pending_operation_id : Option String
  pub last_operation_id : Option String

-- A row of `update_operations_by_bucket`, its key and its time apart. A checksum that an operation has
-- written is at least one, so that the previous checksum is not negative.
pub record Marker : Type 0 where
  pub previous_checksum : ℕ
  pub new_checksum : ℕ
  pub fibonacci_result : String

pub record Cell : Type 0 where
  pub row : Option StoredRecord
  pub markers : Dict String Marker

abbrev pub is_value : Option String → String → Bool
is_value none value = false
is_value (some held) value = held == value

-- `UPDATE … SET pending_operation_id=? … IF checksum=? AND pending_operation_id=null`: the row after
-- it, and whether it was applied.
unfoldable pub reserve_row : String → ℕ → StoredRecord → StoredRecord × Bool
reserve_row operation_id checksum row =
    if row.checksum == checksum && not (is_some row.pending_operation_id)
    then (record row { pending_operation_id = some operation_id }, true)
    else (row, false)

-- `UPDATE … IF pending_operation_id=? AND checksum=?`.
unfoldable pub finish_row : String → ℕ → String → StoredRecord → StoredRecord × Bool
finish_row operation_id checksum result row =
    if is_value row.pending_operation_id operation_id && row.checksum == checksum
    then (
      record row {
        fibonacci_result = some result;
        checksum = checksum + 1;
        last_operation_id = some operation_id;
        pending_operation_id = none;
      },
      true,
    )
    else (row, false)

-- A conditional update of no row is not applied.
unfoldable pub update_cell : (StoredRecord → StoredRecord × Bool) → Cell → Cell × Bool
update_cell statement cell = elim cell.row [
  | none ↦ (cell, false)
  | some row ↦ (record cell { row = some (statement row).0 }, (statement row).1)
]

-- The `INSERT` of `_write_marker`, which replaces a marker of the same operation.
unfoldable pub mark_cell : String → String → ℕ → Cell → Cell
mark_cell operation_id result checksum cell = record cell {
  markers =
      insert operation_id
        (record {
          previous_checksum = checksum - 1;
          new_checksum = checksum;
          fibonacci_result = result;
        })
        cell.markers;
}

-- `_find_operation`.
unfoldable pub find_operation : String → Cell → Option ℕ
find_operation operation_id cell =
    Option.map (λ marker. marker.new_checksum) (lookup operation_id cell.markers)

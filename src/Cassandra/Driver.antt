-- ===== src/Cassandra/Driver.antt =====
-- `CassandraDriverClient` as the client of the handler: a keyspace is the datasets with the cells under
-- their keys (src/job_visibility/scheduler/cassandra_client.py).
use job_scheduling_simulatio.Prelude.{
  ℕ, String, Bool, ◌&&◌, List, if◌then◌else◌, ◌==◌, nat_key, text_key, Dict, lookup,
}
use job_scheduling_simulatio.Model.{code_key}
use job_scheduling_simulatio.Cassandra.Client.{Conditions, apply_once}
use job_scheduling_simulatio.Cassandra.Handler.{JsonValue, Dataset, select_records, WorkloadClient}
use job_scheduling_simulatio.Cassandra.Records.{WorkloadRecord, Cell}

pub record Keyspace : Type 0 where
  pub datasets : Dict String Dataset
  pub cells : String → ℕ → ℕ → Cell

-- A key is that of the record.
abbrev pub is_key : WorkloadRecord → String → ℕ → ℕ → Bool
is_key target dataset_id bucket record_id =
    target.dataset_id == dataset_id && target.bucket == bucket && target.record_id == record_id

abbrev pub cell_of : Keyspace → WorkloadRecord → Cell
cell_of keyspace target = keyspace.cells target.dataset_id target.bucket target.record_id

unfoldable pub set_cell : Keyspace → WorkloadRecord → Cell → Keyspace
set_cell keyspace target cell = record keyspace {
  cells = λ dataset_id bucket record_id.
      if is_key target dataset_id bucket record_id
      then cell
      else keyspace.cells dataset_id bucket record_id;
}

-- The client whose calls meet the conditions.
unfoldable pub driver : (JsonValue → ℕ → ℕ → List ℕ) → Conditions → WorkloadClient Keyspace
unfolding select_records set_cell apply_once
driver sample conditions = record {
  select = λ keyspace dataset_id record_count seed.
      select_records (lookup dataset_id keyspace.datasets)
        (λ bucket id. (keyspace.cells dataset_id bucket id).row) sample dataset_id record_count
        seed;
  apply = λ keyspace target operation_id result.
      let (cell, answer) =
        apply_once conditions target operation_id result (cell_of keyspace target) in
      (set_cell keyspace target cell, answer);
}

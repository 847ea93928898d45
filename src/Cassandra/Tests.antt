-- ===== src/Cassandra/Tests.antt =====
-- Concrete runs of the Cassandra workload of src/job_visibility/scheduler.
use job_scheduling_simulatio.Prelude.{
  ℕ, String, ◌≡◌, refl, ◌⊎◌, inl, true, false, none, some, List, [], ◌∷◌, nat_key, text_key, count,
  lookup, Result, ok, raised,
}
use job_scheduling_simulatio.Model.{code_key}
use job_scheduling_simulatio.Config.Groups.{default_cassandra}
use job_scheduling_simulatio.Scheduler.Types.{HandlerError}
use job_scheduling_simulatio.Cassandra.Effects.{
  selected_again, call_calm, retry_applies_again, reserved-blocks, concurrent-refused,
}
use job_scheduling_simulatio.Cassandra.Client.{
  Conditions, finish_cell, reserve_cell, is_marked, apply_state, apply_once, lost, unknown,
}
use job_scheduling_simulatio.Cassandra.Retries.{IsOpen, Progress, calls, calm, open_row}
use job_scheduling_simulatio.Cassandra.Handler.{
  JsonValue, WorkloadPayload, WorkloadError, WorkloadSummary, execute_workload, missing, natural,
  string, handler_error,
}
use job_scheduling_simulatio.Cassandra.Selection.{IsSound, execute_workload-IsSound}
use job_scheduling_simulatio.Cassandra.Records.{WorkloadRecord, StoredRecord, Cell, find_operation}
use job_scheduling_simulatio.Cassandra.Driver.{Keyspace, driver}

abbrev target : WorkloadRecord
target = record { dataset_id = "d"; bucket = 1; record_id = 7; input_number = 10; checksum = 4 }

abbrev row : StoredRecord
row = record {
  input_number = 10;
  checksum = 4;
  fibonacci_result = none;
  pending_operation_id = none;
  last_operation_id = none;
}

abbrev cell : Cell
cell = record { row = some row; markers = [] }

row-IsOpen : (operation_id : String) → IsOpen operation_id 4 row
row-IsOpen operation_id = record { same = refl; free = inl refl; fresh = refl }

cell-Progress : Progress "a" 4 cell
unfolding find_operation lookup
cell-Progress = open_row row refl (row-IsOpen "a") refl

unmarked : (operation_id : String) → find_operation operation_id cell ≡ none
unfolding find_operation lookup
unmarked operation_id = refl

-- A call whose last update takes effect without an answer, and one whose marker is lost.
abbrev faulty : List Conditions
faulty =
    record calm { finishing = unknown; reread_fails = true } ∷ record calm { marking = lost } ∷ []

faulty-calls_are_undone : (calls target "a" "55" faulty cell).markers ≡ []
unfolding apply_once apply_state finish_cell reserve_cell lookup
faulty-calls_are_undone = refl

retry_applies_again_example :
    let one = call_calm target "a" "55" cell in
    let two = call_calm (selected_again target 5) "b" "55" one.0 in
    let three = call_calm (selected_again target 6) "a" "55" two.0 in
    (one.1 ≡ ok (true, 5)) × (two.1 ≡ ok (true, 6)) × (three.1 ≡ ok (true, 7))
retry_applies_again_example =
    retry_applies_again target "a" "b" "55" cell refl (unmarked "a") (unmarked "b") cell-Progress

abbrev held : StoredRecord
held = record row { pending_operation_id = some "b" }

abbrev held_cell : Cell
held_cell = record { row = some held; markers = [] }

held_unmarked : is_marked (find_operation "a" held_cell) 4 ≡ false
unfolding find_operation lookup
held_unmarked = refl

reserved-blocks_example : call_calm target "a" "55" held_cell ≡ (held_cell, ok (false, 4))
reserved-blocks_example =
    reserved-blocks target "a" "55" held_cell held refl refl refl refl held_unmarked

concurrent-refused_example :
    let winner = call_calm target "b" "55" cell in
    let conditions = record calm { before_reserve = λ c. (call_calm target "b" "55" c).0 } in
    (winner.1 ≡ ok (true, 5))
    × (apply_once conditions target "a" "55" cell ≡ (winner.0, ok (false, 4)))
concurrent-refused_example =
    concurrent-refused target "a" "b" "55" cell row refl (row-IsOpen "a") (row-IsOpen "b") refl
      (unmarked "a") (unmarked "b")

abbrev keyspace : Keyspace
keyspace = record {
  datasets = ("d", record { record_count = 2; bucket_count = 2 }) ∷ [];
  cells = λ dataset_id bucket record_id. cell;
}

abbrev payload : WorkloadPayload
payload = record {
  dataset_id = string "d";
  record_count = natural 2;
  seed = natural 3;
  processing_delay_ms = missing;
}

-- The sample takes the first ids.
abbrev first_ids : JsonValue → ℕ → ℕ → List ℕ
first_ids seed population count = 0 ∷ 1 ∷ []

abbrev run : Keyspace × Result WorkloadError WorkloadSummary
run = execute_workload (driver first_ids calm) default_cassandra (λ n. "text") payload "op" keyspace

-- Two records of one input number: the lower bucket is selected.
lower_bucket_is_updated :
    run.1
    ≡ ok (record {
      rows = 2;
      maximum = 10;
      bucket = 0;
      record_id = 0;
      operation_id = "op";
      previous_checksum = 4;
      checksum = 5;
      delay_ms = 0;
      result = "text";
    })
unfolding driver execute_workload apply_state finish_cell reserve_cell lookup
lower_bucket_is_updated = refl

execute_workload-IsSound_example :
    ((summary : WorkloadSummary) × (run.1 ≡ ok summary)
      × IsSound
          (driver first_ids calm)
          default_cassandra
          (λ n. "text")
          "op"
          keyspace
          payload
          summary)
    ⊎ ((error : HandlerError) × (run.1 ≡ raised (handler_error error)) × (error.retryable ≡ true))
    ⊎ ((error : WorkloadError) × (run ≡ (keyspace, raised error)))
execute_workload-IsSound_example =
    execute_workload-IsSound (driver first_ids calm) default_cassandra (λ n. "text") "op" keyspace
      payload

-- ===== src/Cassandra/Client.antt =====
-- `CassandraDriverClient` of src/job_visibility/scheduler/cassandra_client.py. A statement may raise
-- before it has reached the database, or after its effect; other clients may act between statements.
use job_scheduling_simulatio.Prelude.{
  ℕ, ◌+◌, String, Bool, true, false, Option, none, some, if◌then◌else◌, ◌==◌, nat_key, text_key,
  Result, ok, raised,
}
use job_scheduling_simulatio.Cassandra.Records.{
  WorkloadRecord, StoredRecord, Cell, is_value, reserve_row, finish_row, update_cell, mark_cell,
  find_operation,
}

-- What becomes of a write: it answers, or raises without or with its effect.
pub data Write : Type 0 where
  answers lost unknown : Write

-- What a call of `apply_once` meets, in the order of its statements: whether a read raises, what
-- becomes of a write, whether a hook raises, and what other clients do in between.
pub record Conditions : Type 0 where
  pub read_fails : Bool
  pub find_fails : Bool
  pub before_reserve : Cell → Cell
  pub before_reserve_fails : Bool
  pub reserving : Write
  pub before_finish : Cell → Cell
  pub finishing : Write
  pub after_finalize_fails : Bool
  pub reread_fails : Bool
  pub marking : Write

-- An exception of the driver or of a hook, or of a read of a record that is not there.
pub data ClientError : Type 0 where
  operation_failed : ClientError

-- The cell after a call, and its answer: whether the operation was applied, and the checksum.
abbrev pub Applied : Type 0
Applied = Cell × Result ClientError (Bool × ℕ)

-- `_write_marker`, and what is returned after it.
unfoldable pub write_marker : Write → String → String → ℕ → Cell → Applied
unfolding mark_cell
write_marker answers operation_id result checksum cell =
    (mark_cell operation_id result checksum cell, ok (true, checksum))
write_marker lost operation_id result checksum cell = (cell, raised operation_failed)
write_marker unknown operation_id result checksum cell =
    (mark_cell operation_id result checksum cell, raised operation_failed)

-- The handler of an exception around the last update: the record is read again.
unfoldable pub reconcile_finish : Conditions → String → String → Cell → Applied
unfolding write_marker
reconcile_finish conditions operation_id result cell =
    if conditions.reread_fails then (cell, raised operation_failed) else elim cell.row [
      | none ↦ (cell, raised operation_failed)
      | some state ↦
          if is_value state.last_operation_id operation_id
          then write_marker conditions.marking operation_id result state.checksum cell
          else (cell, raised operation_failed)
    ]

-- What follows an update that has answered, whether it was applied or not.
unfoldable pub after_finish : Conditions → WorkloadRecord → String → String → Cell × Bool → Applied
unfolding reconcile_finish write_marker
after_finish conditions target operation_id result (cell, written) =
    if conditions.after_finalize_fails
    then reconcile_finish conditions operation_id result cell
    else if written
    then write_marker conditions.marking operation_id result (target.checksum + 1) cell
    else (cell, ok (false, target.checksum))

-- The last update, under `try`.
unfoldable pub finish_write : Write → Conditions → WorkloadRecord → String → String → Cell → Applied
unfolding after_finish reconcile_finish update_cell finish_row
finish_write answers conditions target operation_id result cell =
    after_finish conditions target operation_id result
      (update_cell (finish_row operation_id target.checksum result) cell)
finish_write lost conditions target operation_id result cell =
    reconcile_finish conditions operation_id result cell
finish_write unknown conditions target operation_id result cell =
    reconcile_finish conditions operation_id result
      (update_cell (finish_row operation_id target.checksum result) cell).0

unfoldable pub finish_cell : Conditions → WorkloadRecord → String → String → Cell → Applied
unfolding finish_write
finish_cell conditions target operation_id result cell =
    finish_write conditions.finishing conditions target operation_id result
      (conditions.before_finish cell)

-- What follows a reservation that has answered.
unfoldable pub after_reserve :
    Conditions → WorkloadRecord → String → String → ℕ → Cell × Bool → Applied
unfolding finish_cell
after_reserve conditions target operation_id result seen (cell, written) =
    if written
    then finish_cell conditions target operation_id result cell
    else (cell, ok (false, seen))

unfoldable pub reserve_write :
    Write → Conditions → WorkloadRecord → String → String → ℕ → Cell → Applied
unfolding after_reserve update_cell reserve_row
reserve_write answers conditions target operation_id result seen cell =
    after_reserve conditions target operation_id result seen
      (update_cell (reserve_row operation_id target.checksum) cell)
reserve_write lost conditions target operation_id result seen cell = (cell, raised operation_failed)
reserve_write unknown conditions target operation_id result seen cell =
    ((update_cell (reserve_row operation_id target.checksum) cell).0, raised operation_failed)

-- The reservation with the hook before it.
unfoldable pub reserve_cell : Conditions → WorkloadRecord → String → String → ℕ → Cell → Applied
unfolding reserve_write
reserve_cell conditions target operation_id result seen cell =
    if conditions.before_reserve_fails
    then (cell, raised operation_failed)
    else reserve_write conditions.reserving conditions target operation_id result seen
        (conditions.before_reserve cell)

-- A marker of the operation with the checksum that was read.
abbrev pub is_marked : Option ℕ → ℕ → Bool
is_marked none checksum = false
is_marked (some existing) checksum = checksum == existing

-- `apply_once` after its first read.
unfoldable pub apply_state :
    Conditions → WorkloadRecord → String → String → StoredRecord → Cell → Applied
unfolding reserve_cell finish_cell write_marker find_operation
apply_state conditions target operation_id result state cell =
    if is_value state.last_operation_id operation_id
    then write_marker conditions.marking operation_id result state.checksum cell
    else if conditions.find_fails
    then (cell, raised operation_failed)
    else if is_marked (find_operation operation_id cell) state.checksum
    then (cell, ok (true, state.checksum))
    else if is_value state.pending_operation_id operation_id
    then finish_cell conditions target operation_id result cell
    else reserve_cell conditions target operation_id result state.checksum cell

-- `apply_once` by what it has read.
unfoldable pub apply_read :
    Option StoredRecord → Conditions → WorkloadRecord → String → String → Cell → Applied
unfolding apply_state
apply_read none conditions target operation_id result cell = (cell, raised operation_failed)
apply_read (some state) conditions target operation_id result cell =
    apply_state conditions target operation_id result state cell

-- `apply_once`.
unfoldable pub apply_once : Conditions → WorkloadRecord → String → String → Cell → Applied
unfolding apply_read
apply_once conditions target operation_id result cell =
    if conditions.read_fails
    then (cell, raised operation_failed)
    else apply_read cell.row conditions target operation_id result cell

-- ===== src/Cassandra/Retries.antt =====
-- The calls of `apply_once` (src/job_visibility/scheduler/cassandra_client.py) for one operation, when
-- no other client touches the record.
use mathlib.Core.Path.{subst}
use job_scheduling_simulatio.Prelude.{
  ℕ, ◌+◌, String, ◌≡◌, refl, sym, ap, ◌⊎◌, inl, inr, Bool, true, false, none, some, List, [], ◌∷◌,
  arith, if◌then◌else◌, nat_key, text_key, same_refl, if_split, ok, raised,
}
use job_scheduling_simulatio.Cassandra.Client.{
  Conditions, Applied, write_marker, after_finish, finish_cell, after_reserve, reserve_cell,
  is_marked, apply_state, apply_read, apply_once, answers, operation_failed,
}
use job_scheduling_simulatio.Cassandra.Records.{
  WorkloadRecord, StoredRecord, Cell, is_value, reserve_row, finish_row, update_cell, mark_cell,
  find_operation,
}

-- No other client acts during the call.
abbrev pub alone : Conditions → Conditions
alone conditions = record conditions { before_reserve = λ cell. cell; before_finish = λ cell. cell }

-- The operation has not taken effect on a record of the checksum, which it may have reserved.
pub record IsOpen (operation_id : String) (checksum : ℕ) (row : StoredRecord) : Type 0 where
  pub same : row.checksum ≡ checksum
  pub free :
      (row.pending_operation_id ≡ none) ⊎ (is_value row.pending_operation_id operation_id ≡ true)
  pub fresh : is_value row.last_operation_id operation_id ≡ false

-- It has taken effect, once.
pub record IsDone (operation_id : String) (checksum : ℕ) (row : StoredRecord) : Type 0 where
  pub next : row.checksum ≡ checksum + 1
  pub released : row.pending_operation_id ≡ none
  pub last : is_value row.last_operation_id operation_id ≡ true

-- How far the operation has come. An operation without effect has left no marker of the checksum.
pub data Progress (operation_id : String) (checksum : ℕ) (cell : Cell) : Type 0 where
  open_row :
      (row : StoredRecord)
      → cell.row ≡ some row
      → IsOpen operation_id checksum row
      → is_marked (find_operation operation_id cell) checksum ≡ false
      → Progress operation_id checksum cell
  done_row :
      (row : StoredRecord)
      → cell.row ≡ some row
      → IsDone operation_id checksum row
      → Progress operation_id checksum cell

-- The reserved row of the checksum is finished.
finish_row-IsDone :
    (operation_id result : String) (checksum : ℕ) (row : StoredRecord)
    → row.checksum ≡ checksum
    → is_value row.pending_operation_id operation_id ≡ true
    → ((finish_row operation_id checksum result row).1 ≡ true)
      × IsDone operation_id checksum (finish_row operation_id checksum result row).0
unfolding finish_row
finish_row-IsDone operation_id result checksum row same held =
    ground (arith, same, held, same_refl operation_id)

reserve_row-IsOpen :
    (operation_id : String) (checksum : ℕ) (row : StoredRecord)
    → IsOpen operation_id checksum row
    → row.pending_operation_id ≡ none
    → ((reserve_row operation_id checksum row).1 ≡ true)
      × IsOpen operation_id checksum (reserve_row operation_id checksum row).0
      × (is_value (reserve_row operation_id checksum row).0.pending_operation_id operation_id
          ≡ true)
unfolding reserve_row
reserve_row-IsOpen operation_id checksum row o free =
    ground (arith, o.same, o.fresh, free, same_refl operation_id)

pub update_cell-some :
    (statement : StoredRecord → StoredRecord × Bool) (cell : Cell) (row : StoredRecord)
    → cell.row ≡ some row
    → update_cell statement cell ≡ (record cell { row = some (statement row).0 }, (statement row).1)
unfolding update_cell
update_cell-some statement cell row e = rw e

pub apply_once-some :
    (conditions : Conditions) (target : WorkloadRecord) (operation_id result : String) (cell : Cell)
    (row : StoredRecord)
    → cell.row ≡ some row
    → apply_once conditions target operation_id result cell ≡ (
        if conditions.read_fails
        then (cell, raised operation_failed)
        else apply_state conditions target operation_id result row cell)
unfolding apply_once
apply_once-some conditions target operation_id result cell row e =
    ap
      (λ read.
        if conditions.read_fails
        then (cell, raised operation_failed)
        else apply_read read conditions target operation_id result cell)
      e

-- The calls of one operation for one target.
module _ (target : WorkloadRecord) (operation_id result : String) where
  abbrev Goes : Cell → Type 0
  Goes = Progress operation_id target.checksum

  -- Calls one after another; each may end in an exception.
  abbrev pub calls : List Conditions → Cell → Cell
  calls [] cell = cell
  calls (conditions ∷ rest) cell =
      calls rest (apply_once (alone conditions) target operation_id result cell).0

-- A call that meets nothing.
abbrev pub calm : Conditions
calm = record {
  read_fails = false;
  find_fails = false;
  before_reserve = λ cell. cell;
  before_reserve_fails = false;
  reserving = answers;
  before_finish = λ cell. cell;
  finishing = answers;
  after_finalize_fails = false;
  reread_fails = false;
  marking = answers;
}

-- The answer of an operation that is applied, and the record after it.
abbrev pub Succeeds : String → String → ℕ → Cell → Applied → Type 0
Succeeds operation_id result checksum before (cell, answer) =
    (answer ≡ ok (true, checksum + 1))
    × ((row : StoredRecord) × (cell.row ≡ some row) × IsDone operation_id checksum row)
    × (cell.markers ≡ (mark_cell operation_id result (checksum + 1) before).markers)

calm_finish-Succeeds :
    (target : WorkloadRecord) (operation_id result : String) (cell : Cell) (row : StoredRecord)
    → cell.row ≡ some row
    → row.checksum ≡ target.checksum
    → is_value row.pending_operation_id operation_id ≡ true
    → Succeeds operation_id result target.checksum cell
        (finish_cell calm target operation_id result cell)
unfolding finish_cell after_finish write_marker mark_cell
calm_finish-Succeeds target operation_id result cell row e same held =
    let (written, done) = finish_row-IsDone operation_id result target.checksum row same held in
    let next = (finish_row operation_id target.checksum result row).0 in
    subst
      (λ p.
        Succeeds operation_id result target.checksum cell
          (after_finish calm target operation_id result p))
      (sym (update_cell-some (finish_row operation_id target.checksum result) cell row e))
      (rw written (refl, (next, refl, done), refl))

calm_reserve-Succeeds :
    (target : WorkloadRecord) (operation_id result : String) (seen : ℕ) (cell : Cell)
    (row : StoredRecord)
    → cell.row ≡ some row
    → IsOpen operation_id target.checksum row
    → row.pending_operation_id ≡ none
    → Succeeds operation_id result target.checksum cell
        (reserve_cell calm target operation_id result seen cell)
unfolding reserve_cell after_reserve
calm_reserve-Succeeds target operation_id result seen cell row e o free =
    let (written, next_o, held) = reserve_row-IsOpen operation_id target.checksum row o free in
    let next = (reserve_row operation_id target.checksum row).0 in
    subst
      (λ p.
        Succeeds operation_id result target.checksum cell
          (after_reserve calm target operation_id result seen p))
      (sym (update_cell-some (reserve_row operation_id target.checksum) cell row e))
      (rw written (
        calm_finish-Succeeds target operation_id result (record cell { row = some next }) next refl
          next_o.same held))

-- A calm call brings the operation to its end.
pub calm-Succeeds :
    (target : WorkloadRecord) (operation_id result : String) (cell : Cell)
    → Progress operation_id target.checksum cell
    → Succeeds operation_id result target.checksum cell
        (apply_once calm target operation_id result cell)
unfolding apply_state write_marker mark_cell
calm-Succeeds target operation_id result cell (done_row row e d) =
    subst (λ (p : Applied). Succeeds operation_id result target.checksum cell p)
      (sym (apply_once-some calm target operation_id result cell row e))
      (rw (d.last, d.next) (refl, (row, e, d), refl))
calm-Succeeds target operation_id result cell (open_row row e o m) =
    let unmarked : is_marked (find_operation operation_id cell) row.checksum ≡ false =
      rw o.same m in
    subst (λ (p : Applied). Succeeds operation_id result target.checksum cell p)
      (sym (apply_once-some calm target operation_id result cell row e))
      (rw (o.fresh, unmarked)
        (if_split (λ (p : Applied). Succeeds operation_id result target.checksum cell p)
          (is_value row.pending_operation_id operation_id) _ _
          (λ held. calm_finish-Succeeds target operation_id result cell row e o.same held)
          (λ other.
            calm_reserve-Succeeds target operation_id result row.checksum cell row e o
              (elim o.free [ inl free ↦ free | inr held ↦ absurd (ground (arith, held, other)) ]))))

-- ===== src/Cassandra/Effects.antt =====
-- Several operations on one record of src/job_visibility/scheduler/cassandra_client.py.
use job_scheduling_simulatio.Prelude.{
  ℕ, ◌+◌, String, ◌≡◌, refl, sym, ap, ◌∙◌, inl, Bool, true, false, ◌||◌, Option, none, some, arith,
  if◌then◌else◌, is_some, ◌==◌, nat_key, text_key, same_refl, lookup-insert, ok,
}
use job_scheduling_simulatio.Cassandra.Client.{
  Conditions, Applied, after_reserve, reserve_write, reserve_cell, is_marked, apply_state,
  apply_once, answers,
}
use job_scheduling_simulatio.Cassandra.Retries.{
  IsOpen, Progress, update_cell-some, apply_once-some, calm, Succeeds, calm-Succeeds, open_row,
}
use job_scheduling_simulatio.Cassandra.Records.{
  WorkloadRecord, StoredRecord, Cell, is_value, reserve_row, update_cell, mark_cell, find_operation,
}

-- The target that a selection reads of a row.
abbrev pub selected_again : WorkloadRecord → ℕ → WorkloadRecord
selected_again target checksum = record target { checksum = checksum }

-- A calm call.
abbrev pub call_calm : WorkloadRecord → String → String → Cell → Applied
call_calm target operation_id result cell = apply_once calm target operation_id result cell

find_operation-markers :
    (operation_id : String) (cell other : Cell)
    → cell.markers ≡ other.markers
    → find_operation operation_id cell ≡ find_operation operation_id other
unfolding find_operation
find_operation-markers operation_id cell other e = rw e

find_operation-mark :
    (id operation_id result : String) (checksum : ℕ) (cell : Cell)
    → find_operation id (mark_cell operation_id result checksum cell)
      ≡ (if operation_id == id then some checksum else find_operation id cell)
unfolding find_operation mark_cell
find_operation-mark id operation_id result checksum cell =
    rw (lookup-insert operation_id id _ cell.markers) (ground arith)

is_value_other :
    (o : Option String) (a b : String) → a == b ≡ false → is_value o a ≡ true → is_value o b ≡ false
is_value_other none a b other h = refl
is_value_other (some held) a b other h = rw ((text_key.same_iff held a).0 h) other

-- After a finished operation a call for another one finds no marker, if there was none.
unmarked_after :
    (first second result : String) (checksum n : ℕ) (before : Cell) (after : Applied)
    → first == second ≡ false
    → find_operation second before ≡ none
    → Succeeds first result checksum before after
    → is_marked (find_operation second after.0) n ≡ false
unmarked_after first second result checksum n before after other none_yet (_, _, marks) = rw (
  find_operation-markers second after.0 (mark_cell first result (checksum + 1) before) marks,
  find_operation-mark second first result (checksum + 1) before,
  other,
  none_yet,
)

-- What a finished operation leaves is open for another one without a marker of the new checksum.
done-open :
    (first second result : String) (checksum : ℕ) (before : Cell) (after : Applied)
    → first == second ≡ false
    → is_marked (find_operation second after.0) (checksum + 1) ≡ false
    → Succeeds first result checksum before after
    → Progress second (checksum + 1) after.0
done-open first second result checksum before after other unmarked (_, (row, e, d), _) =
    open_row row e
      (record {
        same = d.next;
        free = inl d.released;
        fresh = is_value_other row.last_operation_id first second other d.last;
      })
      unmarked

-- The marker of an operation is behind the checksum once another operation has taken effect.
overtaken :
    (first second result : String) (c : ℕ) (cell : Cell) (one two : Applied)
    → second == first ≡ false
    → Succeeds first result c cell one
    → Succeeds second result (c + 1) one.0 two
    → is_marked (find_operation first two.0) (c + 1 + 1) ≡ false
overtaken first second result c cell one two other (_, _, m₁) (_, _, m₂) =
    rw
      (
        find_operation-markers first two.0 (mark_cell second result (c + 1 + 1) one.0) m₂,
        find_operation-mark first second result (c + 1 + 1) one.0,
        other,
        find_operation-markers first one.0 (mark_cell first result (c + 1) cell) m₁,
        find_operation-mark first first result (c + 1) cell,
        same_refl first,
      )
      (ground arith)

-- An operation that has taken effect, and is called again after another one has, takes effect again:
-- its marker no longer tells, as the checksum has moved on. The first and the last call are of one
-- operation, and each of the three grows the checksum by one.
pub retry_applies_again :
    (target : WorkloadRecord) (first second result : String) (cell : Cell)
    → first == second ≡ false
    → find_operation first cell ≡ none
    → find_operation second cell ≡ none
    → Progress first target.checksum cell
    → (let c = target.checksum in
        let one = call_calm target first result cell in
        let two = call_calm (selected_again target (c + 1)) second result one.0 in
        let three = call_calm (selected_again target (c + 1 + 1)) first result two.0 in
        (one.1 ≡ ok (true, c + 1))
        × (two.1 ≡ ok (true, c + 1 + 1))
        × (three.1 ≡ ok (true, c + 1 + 1 + 1)))
retry_applies_again target first second result cell other no_first no_second p =
    let c = target.checksum in
    let back : second == first ≡ false =
      ground (arith, other, text_key.same_iff first second, text_key.same_iff second first) in
    let one = call_calm target first result cell in
    let s1 = calm-Succeeds target first result cell p in
    let next = selected_again target (c + 1) in
    let two = call_calm next second result one.0 in
    let s2 = calm-Succeeds next second result one.0 (
      done-open first second result c cell one other
        (unmarked_after first second result c (c + 1) cell one other no_second s1) s1) in
    let last = selected_again target (c + 1 + 1) in
    let s3 = calm-Succeeds last first result two.0 (
      done-open second first result (c + 1) one.0 two back
        (overtaken first second result c cell one two back s1 s2) s2) in
    (s1.0, s2.0, s3.0)

-- A conditional update that is refused leaves the cell.
update_cell-refused :
    (statement : StoredRecord → StoredRecord × Bool) (cell : Cell) (row : StoredRecord)
    → cell.row ≡ some row
    → statement row ≡ (row, false)
    → update_cell statement cell ≡ (cell, false)
update_cell-refused statement cell row e h =
    update_cell-some statement cell row e
    ∙ ap (λ (p : StoredRecord × Bool). (record cell { row = some p.0 }, p.1)) h
    ∙ ap (λ r. (record cell { row = r }, false)) (sym e)

-- So the call is refused, with the checksum that it had read.
reserve_refused :
    (conditions : Conditions) (target : WorkloadRecord) (operation_id result : String) (seen : ℕ)
    (cell : Cell) (row : StoredRecord)
    → cell.row ≡ some row
    → reserve_row operation_id target.checksum row ≡ (row, false)
    → reserve_write answers conditions target operation_id result seen cell
      ≡ (cell, ok (false, seen))
unfolding reserve_write after_reserve
reserve_refused conditions target operation_id result seen cell row e h =
    ap (after_reserve conditions target operation_id result seen)
      (update_cell-refused (reserve_row operation_id target.checksum) cell row e h)

-- A call of an operation that neither is the last nor has reserved the record comes to the hook before
-- its reservation.
reaches_hook :
    (conditions : Conditions) (target : WorkloadRecord) (operation_id result : String) (cell : Cell)
    (row : StoredRecord)
    → cell.row ≡ some row
    → conditions.read_fails || conditions.find_fails ≡ false
    → is_value row.last_operation_id operation_id ≡ false
    → is_marked (find_operation operation_id cell) row.checksum ≡ false
    → is_value row.pending_operation_id operation_id ≡ false
    → apply_once conditions target operation_id result cell
      ≡ reserve_cell conditions target operation_id result row.checksum cell
unfolding apply_state
reaches_hook conditions target operation_id result cell row e works fresh unmarked other =
    apply_once-some conditions target operation_id result cell row e
    ∙ ground (arith, works, fresh, unmarked, other)

-- A record that another operation has reserved refuses every call that meets no exception, and stays
-- as it is: until that operation is called again, no other one is applied.
pub reserved-blocks :
    (target : WorkloadRecord) (operation_id result : String) (cell : Cell) (row : StoredRecord)
    → cell.row ≡ some row
    → is_some row.pending_operation_id ≡ true
    → is_value row.pending_operation_id operation_id ≡ false
    → is_value row.last_operation_id operation_id ≡ false
    → is_marked (find_operation operation_id cell) row.checksum ≡ false
    → call_calm target operation_id result cell ≡ (cell, ok (false, row.checksum))
unfolding reserve_cell reserve_row
reserved-blocks target operation_id result cell row e reserved other fresh unmarked =
    reaches_hook calm target operation_id result cell row e refl fresh unmarked other
    ∙ reserve_refused calm target operation_id result row.checksum cell row e
        (ground (arith, reserved))

-- Of two operations that have read one checksum only one is applied: if the second takes its whole
-- effect before the first reserves, the first is refused and changes nothing.
pub concurrent-refused :
    (target : WorkloadRecord) (first second result : String) (cell : Cell) (row : StoredRecord)
    → cell.row ≡ some row
    → IsOpen first target.checksum row
    → IsOpen second target.checksum row
    → row.pending_operation_id ≡ none
    → find_operation first cell ≡ none
    → find_operation second cell ≡ none
    → (let winner = call_calm target second result cell in
        let conditions = record calm {
          before_reserve = λ c. (call_calm target second result c).0;
        } in
        (winner.1 ≡ ok (true, target.checksum + 1))
        × (apply_once conditions target first result cell
            ≡ (winner.0, ok (false, target.checksum))))
unfolding reserve_cell reserve_row
concurrent-refused target first second result cell row e o₁ o₂ free none₁ none₂ =
    let hook = λ (c : Cell). (call_calm target second result c).0 in
    let conditions = record calm { before_reserve = hook } in
    let (won, (next, e', done), _) =
      calm-Succeeds target second result cell (open_row row e o₂ (rw none₂)) in
    (
      won,
      reaches_hook conditions target first result cell row e refl o₁.fresh (rw none₁) (rw free)
          ∙ reserve_refused conditions target first result row.checksum
              (call_calm target second result cell).0 next e' (ground (arith, done.next))
          ∙ ap (λ n. ((call_calm target second result cell).0, ok (false, n))) o₁.same,
    )

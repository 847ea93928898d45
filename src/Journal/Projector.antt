-- ===== src/Journal/Projector.antt =====
-- `ProjectionWorker` of src/job_visibility/edr_store/projection_worker.py. A round is one transaction:
-- one that raises answers with the database that it began with.
use job_scheduling_simulatio.Prelude.{
  ℕ, String, Bool, not, ◌&&◌, ◌||◌, Option, none, some, List, [], ◌∷◌, ◌++◌, map, sort, ltb,
  text_le, if◌then◌else◌, is_some, ◌==◌, nat_key, text_key, length, select, take, contains, Dict,
  lookup, insert, values, Result, ok, raised,
}
use job_scheduling_simulatio.Model.{
  Time, Event, Error, code_key, ProjectionDecision, JobVisibility, default_config, value_error,
}
use job_scheduling_simulatio.Journal.Parse.{event_from_wire}
use job_scheduling_simulatio.Journal.Tables.{
  EdrRow, VisibilityRow, DecisionRow, EdrDatabase, insert_new, delete_attempts, insert_attempts,
  insert_decisions, upsert_findings,
}
use job_scheduling_simulatio.Scheduler.Types.{
  Checkpoint, projector_before_apply, projector_after_apply,
}
use job_scheduling_simulatio.Engine.View.{response, snapshot}
use job_scheduling_simulatio.Engine.Store.{VisibilityEngine, new_engine, apply}

-- What a round raises: an error of the projection, the violation of a constraint of the database, or a
-- fault of the injector or of `before_commit`.
pub data ProjectionFailure : Type 0 where
  projection_error : Error → ProjectionFailure
  integrity_error injected : ProjectionFailure

-- `ORDER BY persisted_at,event_id`.
abbrev pub persisted_le : EdrRow → EdrRow → Bool
persisted_le a b =
    ltb a.persisted_at b.persisted_at
    || a.persisted_at == b.persisted_at && text_le a.event_id b.event_id

-- The journal of a job, in its order.
unfoldable pub job_journal : String → List EdrRow → List EdrRow
job_journal job_id events = sort persisted_le (select (λ row. row.job_id == job_id) events)

-- An exception of `apply` ends the loop.
abbrev pub after_apply :
    VisibilityEngine × Result Error ProjectionDecision → Result Error VisibilityEngine
after_apply (next, ok decision) = ok next
after_apply (next, raised error) = raised error

-- The engine after one event of a journal, if neither its wire form nor `apply` raises.
abbrev pub apply_wire : Result Error Event → VisibilityEngine → Result Error VisibilityEngine
apply_wire (raised error) engine = raised error
apply_wire (ok event) engine = after_apply (apply engine event none)

abbrev pub and_then_replay :
    Result Error VisibilityEngine
    → (VisibilityEngine → Result Error VisibilityEngine)
    → Result Error VisibilityEngine
and_then_replay (raised error) f = raised error
and_then_replay (ok engine) f = f engine

-- The loop of `_project_job` over a journal.
unfoldable pub replay : VisibilityEngine → List EdrRow → Result Error VisibilityEngine
unfolding event_from_wire
replay engine [] = ok engine
replay engine (row ∷ rows) =
    and_then_replay (apply_wire (event_from_wire row.canonical_payload) engine)
      λ next. replay next rows

-- The row of a job, with the response at the time of its data.
abbrev pub visibility_row : VisibilityEngine → JobVisibility → Time → VisibilityRow
visibility_row engine job as_of = record {
  correlation_id = job.correlation_id;
  job_type = job.job_type;
  recorded_status = job.recorded_status;
  projection = response engine.config job as_of;
  data_as_of = job.data_as_of;
  version = job.version;
}

-- The job and the response that `_project_job` writes. A job that was reduced has a `data_as_of`, so
-- that the first case does not occur.
abbrev pub project_at :
    Option Time → VisibilityEngine → JobVisibility → Result Error (JobVisibility × VisibilityRow)
project_at none engine job = raised value_error
project_at (some as_of) engine job = ok (job, visibility_row engine job as_of)

abbrev pub project_snapshot :
    VisibilityEngine → Result Error JobVisibility → Result Error (JobVisibility × VisibilityRow)
project_snapshot engine (raised error) = raised error
project_snapshot engine (ok job) = project_at job.data_as_of engine job

abbrev pub project_replayed :
    String → Result Error VisibilityEngine → Result Error (JobVisibility × VisibilityRow)
project_replayed job_id (raised error) = raised error
project_replayed job_id (ok engine) = project_snapshot engine (snapshot engine job_id)

-- What a job's journal gives: its job and its row of `job_visibility`.
unfoldable pub projection_of : List EdrRow → String → Result Error (JobVisibility × VisibilityRow)
unfolding job_journal replay snapshot
projection_of events job_id =
    project_replayed job_id (replay (new_engine default_config) (job_journal job_id events))

-- The tables after the statements of `_project_job` that write, by what the decisions are then.
unfoldable pub written :
    String → JobVisibility × VisibilityRow → Dict String DecisionRow → EdrDatabase → EdrDatabase
unfolding delete_attempts insert_attempts upsert_findings
written job_id (job, row) decisions db = record db {
  visibility = insert job_id row db.visibility;
  attempts = delete_attempts job_id db.attempts ++ insert_attempts job_id (values job.attempts);
  decisions = decisions;
  findings = upsert_findings job_id (values job.findings) db.findings;
}

abbrev pub event_ids : List EdrRow → List String
event_ids events = map (λ (row : EdrRow). row.event_id) events

abbrev pub written_with :
    String
    → JobVisibility × VisibilityRow
    → EdrDatabase
    → Option (Dict String DecisionRow)
    → Result ProjectionFailure EdrDatabase
written_with job_id p db none = raised integrity_error
written_with job_id p db (some decisions) = ok (written job_id p decisions db)

-- The statements of `_project_job` that write. A decision about an event that is not in the journal
-- violates a foreign key.
unfoldable pub write_projection :
    String → JobVisibility × VisibilityRow → EdrDatabase → Result ProjectionFailure EdrDatabase
unfolding insert_decisions written
write_projection job_id p db =
    written_with job_id p db
      (insert_decisions (event_ids db.events) job_id p.0.decisions db.decisions)

abbrev pub write_result :
    String
    → EdrDatabase
    → Result Error (JobVisibility × VisibilityRow)
    → Result ProjectionFailure EdrDatabase
write_result job_id db (raised error) = raised (projection_error error)
write_result job_id db (ok projection) = write_projection job_id projection db

-- `_project_job`.
unfoldable pub project_job : String → EdrDatabase → Result ProjectionFailure EdrDatabase
unfolding projection_of write_projection
project_job job_id db = write_result job_id db (projection_of db.events job_id)

-- The rows that a round projects; `locked` has those that other rounds hold.
abbrev pub is_pending : (EdrRow → Bool) → Dict String String → EdrRow → Bool
is_pending locked projected row = not (is_some (lookup row.event_id projected)) && not (locked row)

unfoldable pub pending_rows : (EdrRow → Bool) → ℕ → EdrDatabase → List EdrRow
pending_rows locked limit db =
    take limit (sort persisted_le (select (is_pending locked db.projected) db.events))

abbrev pub bind_db :
    Result ProjectionFailure EdrDatabase
    → (EdrDatabase → Result ProjectionFailure EdrDatabase)
    → Result ProjectionFailure EdrDatabase
bind_db (raised failure) f = raised failure
bind_db (ok db) f = f db

-- `INSERT INTO projected_events … ON CONFLICT DO NOTHING`.
unfoldable pub mark_projected : EdrRow → EdrDatabase → EdrDatabase
unfolding insert_new
mark_projected row db = record db { projected = insert_new row.event_id row.job_id db.projected }

-- One pending row; `fault` says where the injector raises.
unfoldable pub project_row :
    (Checkpoint → EdrRow → Bool) → EdrRow → EdrDatabase → Result ProjectionFailure EdrDatabase
unfolding project_job mark_projected
project_row fault row db =
    if fault projector_before_apply row
    then raised injected
    else bind_db (project_job row.job_id db) λ next.
      if fault projector_after_apply row then raised injected else ok (mark_projected row next)

unfoldable pub project_rows :
    (Checkpoint → EdrRow → Bool) → List EdrRow → EdrDatabase → Result ProjectionFailure EdrDatabase
unfolding project_row
project_rows fault [] db = ok db
project_rows fault (row ∷ rows) db =
    bind_db (project_row fault row db) λ next. project_rows fault rows next

-- A committed round with its count, or a rolled back one.
abbrev pub commit_round :
    ℕ
    → EdrDatabase
    → Result ProjectionFailure EdrDatabase
    → EdrDatabase × Result ProjectionFailure ℕ
commit_round n db (raised failure) = (db, raised failure)
commit_round n db (ok next) = (next, ok n)

-- `before_commit` is called only if something is pending; it may raise.
abbrev pub before_commit :
    (List EdrRow → Bool)
    → List EdrRow
    → Result ProjectionFailure EdrDatabase
    → Result ProjectionFailure EdrDatabase
before_commit hook_raises [] result = result
before_commit hook_raises (row ∷ rows) result =
    bind_db result λ db. if hook_raises (row ∷ rows) then raised injected else ok db

-- `run_once`, of a round that runs alone.
unfoldable pub run_round :
    (EdrRow → Bool)
    → ℕ
    → (Checkpoint → EdrRow → Bool)
    → (List EdrRow → Bool)
    → EdrDatabase
    → EdrDatabase × Result ProjectionFailure ℕ
unfolding pending_rows project_rows
run_round locked batch_size fault hook_raises db =
    let pending = pending_rows locked batch_size db in
    commit_round (length pending) db
      (before_commit hook_raises pending (project_rows fault pending db))

-- `SELECT DISTINCT job_id FROM edr_events ORDER BY job_id`.
unfoldable pub distinct_ids : List String → List String
distinct_ids [] = []
distinct_ids (id ∷ ids) = let rest = distinct_ids ids in if contains id ids then rest else id ∷ rest

unfoldable pub journal_jobs : List EdrRow → List String
unfolding distinct_ids
journal_jobs events = sort text_le (distinct_ids (map (λ row. row.job_id) events))

unfoldable pub project_jobs : List String → EdrDatabase → Result ProjectionFailure EdrDatabase
unfolding project_job
project_jobs [] db = ok db
project_jobs (id ∷ ids) db = bind_db (project_job id db) λ next. project_jobs ids next

-- `rebuild`.
unfoldable pub rebuild : EdrDatabase → EdrDatabase × Result ProjectionFailure ℕ
unfolding journal_jobs project_jobs
rebuild db = let ids = journal_jobs db.events in commit_round (length ids) db (project_jobs ids db)

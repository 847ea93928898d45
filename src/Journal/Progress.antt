-- ===== src/Journal/Progress.antt =====
-- Rounds of the projection worker that meet no fault and no lock
-- (src/job_visibility/edr_store/projection_worker.py).
use mathlib.Core.Path.{subst}
use mathlib.Core.List.{Memᴰ}
use job_scheduling_simulatio.Prelude.{
  ℕ, ◌≡◌, refl, sym, ap, ◌∙◌, Bool, false, not, List, [], ◌∷◌, is_some, nat_key, text_key, length,
  All, count, lookup, Result, ok,
}
use job_scheduling_simulatio.Model.{code_key}
use job_scheduling_simulatio.Journal.Replays.{IsSound}
use job_scheduling_simulatio.Journal.Logs.{write_projection-IsLogged}
use job_scheduling_simulatio.Journal.Sound.{projection_of_sound}
use job_scheduling_simulatio.Journal.Tables.{EdrRow, EdrDatabase}
use job_scheduling_simulatio.Journal.Rounds.{Projects, project_row-Projects, project_rows-Projects}
use job_scheduling_simulatio.Journal.Projector.{
  ProjectionFailure, written, write_result, project_job, pending_rows, bind_db, mark_projected,
  project_row, project_rows, commit_round, before_commit, run_round,
}
use job_scheduling_simulatio.Journal.Consistency.{pending_rows-Mem}
use job_scheduling_simulatio.Journal.Current.{project_job-eq}
use job_scheduling_simulatio.Scheduler.Types.{Checkpoint}

-- Whether an event waits for its projection.
abbrev pub waits : EdrDatabase → EdrRow → Bool
waits db row = not (is_some (lookup row.event_id db.projected))

-- How many events wait.
abbrev pub waiting : EdrDatabase → ℕ
waiting db = count (waits db) db.events

abbrev pub no_lock : EdrRow → Bool
no_lock row = false

abbrev pub no_row_fault : Checkpoint → EdrRow → Bool
no_row_fault checkpoint row = false

abbrev pub no_hook : List EdrRow → Bool
no_hook rows = false

abbrev pub calm_round : ℕ → EdrDatabase → EdrDatabase × Result ProjectionFailure ℕ
calm_round batch_size db = run_round no_lock batch_size no_row_fault no_hook db

pub project_job_sound :
    (row : EdrRow) (db : EdrDatabase)
    → All IsSound db.events
    → Memᴰ row db.events
    → (next : EdrDatabase) × (project_job row.job_id db ≡ ok next)
project_job_sound row db sound m =
    let (p, e, logged) = projection_of_sound db.events row sound m in
    let (next, written) = write_projection-IsLogged row.job_id p db logged in
    (next, project_job-eq row.job_id db ∙ ap (write_result row.job_id db) e ∙ written)

project_row_sound :
    (row : EdrRow) (db : EdrDatabase)
    → All IsSound db.events
    → Memᴰ row db.events
    → (next : EdrDatabase) × (project_row no_row_fault row db ≡ ok next)
unfolding project_row
project_row_sound row db sound m =
    let (middle, e) = project_job_sound row db sound m in
    (mark_projected row middle, ap (λ r. bind_db r (λ next. ok (mark_projected row next))) e)

project_rows_sound :
    (rows : List EdrRow) (db : EdrDatabase)
    → All IsSound db.events
    → All (λ row. Memᴰ row db.events) rows
    → (next : EdrDatabase) × (project_rows no_row_fault rows db ≡ ok next)
unfolding project_rows
project_rows_sound [] db sound inside = (db, refl)
project_rows_sound (row ∷ rows) db sound inside =
    let (middle, e) = project_row_sound row db sound inside.0 in
    let same = (project_row-Projects no_row_fault row db middle e).keeps.same_events in
    let (next, e') =
      project_rows_sound rows middle (subst (λ events. All IsSound events) (sym same) sound)
        (subst (λ events. All (λ r. Memᴰ r events) rows) (sym same) inside.1) in
    (next, ap (λ r. bind_db r (λ d. project_rows no_row_fault rows d)) e ∙ e')

before_commit-calm :
    (rows : List EdrRow) (db : EdrDatabase) → before_commit no_hook rows (ok db) ≡ ok db
before_commit-calm [] db = refl
before_commit-calm (row ∷ rows) db = refl

-- A round over sound rows that meets no fault answers, and has projected its batch.
pub run_round_sound :
    (locked : EdrRow → Bool) (batch_size : ℕ) (db : EdrDatabase)
    → All IsSound db.events
    → let (next, answer) = run_round locked batch_size no_row_fault no_hook db in
      let batch = pending_rows locked batch_size db in
      (answer ≡ ok (length batch)) × Projects batch db next
unfolding run_round
run_round_sound locked batch_size db sound =
    let batch = pending_rows locked batch_size db in
    let (next, e) = project_rows_sound batch db sound (pending_rows-Mem locked batch_size db) in
    let committed : before_commit no_hook batch (project_rows no_row_fault batch db) ≡ ok next =
      ap (before_commit no_hook batch) e ∙ before_commit-calm batch next in
    (
      ap (λ r. (commit_round (length batch) db r).1) committed,
      subst (Projects batch db) (sym (ap (λ r. (commit_round (length batch) db r).0) committed))
          (project_rows-Projects no_row_fault batch db next e),
    )

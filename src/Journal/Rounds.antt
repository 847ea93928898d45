-- ===== src/Journal/Rounds.antt =====
-- The loop of `ProjectionWorker.run_once` and that of `rebuild`
-- (src/job_visibility/edr_store/projection_worker.py).
use mathlib.Core.Path.{subst}
use job_scheduling_simulatio.Prelude.{
  ℕ, String, ◌≡◌, refl, ap, ◌∙◌, ◌⊎◌, inl, inr, Bool, true, false, ◌||◌, List, [], ◌∷◌, map, arith,
  if◌then◌else◌, is_some, ◌==◌, nat_key, text_key, same_refl, length, All, contains, Dict, lookup,
  lookup-insert, Result, ok-injective, ok, raised,
}
use job_scheduling_simulatio.Model.{code_key}
use job_scheduling_simulatio.Journal.Tables.{EdrRow, EdrDatabase, insert_new}
use job_scheduling_simulatio.Journal.Projector.{
  ProjectionFailure, project_job, pending_rows, bind_db, mark_projected, project_row, project_rows,
  commit_round, before_commit, run_round, injected,
}
use job_scheduling_simulatio.Journal.Current.{
  Current, Keeps, Keeps-self, Keeps-then, project_job-Current,
}
use job_scheduling_simulatio.Scheduler.Types.{Checkpoint}
use job_scheduling_simulatio.Engine.Invariant.{current}

-- A step that is bound has been taken.
pub bind_db-ok {ℓ} :
    {P : Type ℓ} (r : Result ProjectionFailure EdrDatabase)
    (f : EdrDatabase → Result ProjectionFailure EdrDatabase) (next : EdrDatabase)
    → bind_db r f ≡ ok next
    → ((middle : EdrDatabase) → r ≡ ok middle → f middle ≡ ok next → P)
    → P
bind_db-ok (raised failure) f next e use_it = cc
bind_db-ok (ok middle) f next e use_it = use_it middle refl e

-- A step that may raise has not.
if_raised-ok :
    (b : Bool) (r : Result ProjectionFailure EdrDatabase) (next : EdrDatabase)
    → (if b then raised injected else r) ≡ ok next
    → r ≡ ok next
if_raised-ok true r next e = cc
if_raised-ok false r next e = e

mark_projected-Keeps : (row : EdrRow) (db : EdrDatabase) → Keeps db (mark_projected row db)
unfolding mark_projected
mark_projected-Keeps row db = record { same_events = refl; current = λ job_id c. c }

is_some-insert_new :
    (id key : String) (job_id : String) (table : Dict String String)
    → is_some (lookup id (insert_new key job_id table)) ≡ is_some (lookup id table) || id == key
unfolding insert_new
is_some-insert_new id key job_id table = ground (
  arith,
  lookup-insert key id job_id table,
  text_key.same_iff id key,
  text_key.same_iff key id,
  same_refl key,
)

-- What projecting the rows of a batch does: it keeps what is current, brings the jobs of the batch up
-- to date, and marks the events of the batch and no others.
pub record Projects (rows : List EdrRow) (db next : EdrDatabase) : Type 0 where
  pub keeps : Keeps db next
  pub brought : All (λ row. Current next row.job_id) rows
  pub marked :
      (id : String)
      → is_some (lookup id next.projected)
        ≡ is_some (lookup id db.projected) || contains id (map (λ row. row.event_id) rows)

pub mark_projected-marked :
    (row : EdrRow) (db middle : EdrDatabase)
    → middle.projected ≡ db.projected
    → (id : String)
    → is_some (lookup id (mark_projected row middle).projected)
      ≡ is_some (lookup id db.projected) || contains id (row.event_id ∷ [])
unfolding mark_projected
mark_projected-marked row db middle same id =
    is_some-insert_new id row.event_id row.job_id middle.projected
    ∙ ap (λ p. is_some (lookup id p) || id == row.event_id) same
    ∙ ground arith

pub project_row-Projects :
    (fault : Checkpoint → EdrRow → Bool) (row : EdrRow) (db next : EdrDatabase)
    → project_row fault row db ≡ ok next
    → Projects (row ∷ []) db next
unfolding project_row mark_projected
project_row-Projects fault row db next e =
    bind_db-ok (project_job row.job_id db) _ next (if_raised-ok _ _ next e) λ middle projected rest.
      let (keeps, current, same) = project_job-Current row.job_id db middle projected in
      subst (Projects (row ∷ []) db) (ok-injective _ refl (if_raised-ok _ _ next rest)) (record {
        keeps =
            Keeps-then db middle (mark_projected row middle) keeps
              (mark_projected-Keeps row middle);
        brought = (current, tt);
        marked = mark_projected-marked row db middle same;
      })

pub project_rows-Projects :
    (fault : Checkpoint → EdrRow → Bool) (rows : List EdrRow) (db next : EdrDatabase)
    → project_rows fault rows db ≡ ok next
    → Projects rows db next
unfolding project_rows
project_rows-Projects fault [] db next e =
    subst (Projects [] db) (ok-injective _ refl e)
      (record { keeps = Keeps-self db; brought = tt; marked = λ id. ground arith })
project_rows-Projects fault (row ∷ rows) db next e =
    bind_db-ok (project_row fault row db) _ next e λ middle first rest.
      let p = project_row-Projects fault row db middle first in
      let q = project_rows-Projects fault rows middle next rest in
      record {
        keeps = Keeps-then db middle next p.keeps q.keeps;
        brought = (q.keeps.current row.job_id p.brought.0, q.brought);
        marked = λ id. ground (arith, p.marked id, q.marked id);
      }

-- A committed round has projected its batch.
before_commit-ok :
    (hook_raises : List EdrRow → Bool) (rows : List EdrRow)
    (r : Result ProjectionFailure EdrDatabase) (next : EdrDatabase)
    → before_commit hook_raises rows r ≡ ok next
    → r ≡ ok next
before_commit-ok hook_raises [] r next e = e
before_commit-ok hook_raises (row ∷ rows) r next e =
    bind_db-ok r _ next e λ middle same rest. same ∙ if_raised-ok _ _ next rest

-- A round has projected its batch, or it has raised and changed nothing.
pub run_round-cases :
    (locked : EdrRow → Bool) (batch_size : ℕ) (fault : Checkpoint → EdrRow → Bool)
    (hook_raises : List EdrRow → Bool) (db : EdrDatabase)
    → let (next, answer) = run_round locked batch_size fault hook_raises db in
      let batch = pending_rows locked batch_size db in
      ((answer ≡ ok (length batch)) × Projects batch db next)
      ⊎ ((failure : ProjectionFailure) × (answer ≡ raised failure) × (next ≡ db))
unfolding run_round
run_round-cases locked batch_size fault hook_raises db =
    committed (pending_rows locked batch_size db)
      (before_commit hook_raises (pending_rows locked batch_size db)
        (project_rows fault (pending_rows locked batch_size db) db))
      refl
  where
    committed :
        (batch : List EdrRow) (r : Result ProjectionFailure EdrDatabase)
        → before_commit hook_raises batch (project_rows fault batch db) ≡ r
        → let (next, answer) = commit_round (length batch) db r in
          ((answer ≡ ok (length batch)) × Projects batch db next)
          ⊎ ((failure : ProjectionFailure) × (answer ≡ raised failure) × (next ≡ db))
    committed batch (raised failure) e = inr (failure, refl, refl)
    committed batch (ok next) e = inl (
      refl,
      project_rows-Projects fault batch db next (before_commit-ok hook_raises batch _ next e),
    )

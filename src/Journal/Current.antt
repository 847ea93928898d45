-- ===== src/Journal/Current.antt =====
-- What the writes of a round do to the rows of `job_visibility`
-- (src/job_visibility/edr_store/projection_worker.py).
use mathlib.Core.Path.{subst}
use job_scheduling_simulatio.Prelude.{
  String, ◌≡◌, refl, sym, ◌∙◌, inl, inr, Option, none, some, Bool-cases, ◌==◌, nat_key, text_key,
  Dict, lookup, lookup-insert_self, lookup-insert_ne, Result, ok-injective, ok, raised,
}
use job_scheduling_simulatio.Model.{Error, code_key, JobVisibility}
use job_scheduling_simulatio.Journal.Tables.{
  VisibilityRow, DecisionRow, EdrDatabase, insert_decisions,
}
use job_scheduling_simulatio.Journal.Projector.{
  projection_of, written, event_ids, written_with, write_projection, write_result, project_job,
}
use job_scheduling_simulatio.Engine.View.{found}

-- The row of a job is the projection of its journal.
abbrev pub Current : EdrDatabase → String → Type 0
Current db job_id =
    (p : JobVisibility × VisibilityRow) × (projection_of db.events job_id ≡ ok p)
    × (lookup job_id db.visibility ≡ some p.1)

-- What a write of a round leaves of the database before it.
pub record Keeps (db next : EdrDatabase) : Type 0 where
  pub same_events : next.events ≡ db.events
  pub current : (job_id : String) → Current db job_id → Current next job_id

pub Keeps-self : (db : EdrDatabase) → Keeps db db
Keeps-self db = record { same_events = refl; current = λ job_id c. c }

pub Keeps-then :
    (db middle next : EdrDatabase) → Keeps db middle → Keeps middle next → Keeps db next
Keeps-then db middle next k l = record {
  same_events = l.same_events ∙ k.same_events;
  current = λ job_id c. l.current job_id (k.current job_id c);
}

-- The projection of a journal, once written, is the current one, and no other job's row is touched.
written-Current :
    (job_id : String) (p : JobVisibility × VisibilityRow) (decisions : Dict String DecisionRow)
    (db : EdrDatabase)
    → projection_of db.events job_id ≡ ok p
    → Current (written job_id p decisions db) job_id
unfolding written
written-Current job_id (job, row) decisions db e =
    ((job, row), e, lookup-insert_self job_id row db.visibility)

written-Keeps :
    (job_id : String) (p : JobVisibility × VisibilityRow) (decisions : Dict String DecisionRow)
    (db : EdrDatabase)
    → projection_of db.events job_id ≡ ok p
    → Keeps db (written job_id p decisions db)
unfolding written
written-Keeps job_id (job, row) decisions db e = record {
  same_events = refl;
  current = λ other (q, e', found). elim (Bool-cases (job_id == other)) [
    | inl same ↦
        subst (λ id. Current (written job_id (job, row) decisions db) id)
          ((text_key.same_iff job_id other).0 same)
          (written-Current job_id (job, row) decisions db e)
    | inr differs ↦ (q, e', lookup-insert_ne job_id other row db.visibility differs ∙ found)
  ];
}

written-projected :
    (job_id : String) (p : JobVisibility × VisibilityRow) (decisions : Dict String DecisionRow)
    (db : EdrDatabase)
    → (written job_id p decisions db).projected ≡ db.projected
unfolding written
written-projected job_id (job, row) decisions db = refl

pub written-row :
    (job_id : String) (p : JobVisibility × VisibilityRow) (decisions : Dict String DecisionRow)
    (db : EdrDatabase)
    → lookup job_id (written job_id p decisions db).visibility ≡ some p.1
unfolding written
written-row job_id (job, row) decisions db = lookup-insert_self job_id row db.visibility

-- A write that raises nothing has written its row, and marked no event.
pub write_projection-ok :
    (job_id : String) (p : JobVisibility × VisibilityRow) (db next : EdrDatabase)
    → write_projection job_id p db ≡ ok next
    → (decisions : Dict String DecisionRow) × (written job_id p decisions db ≡ next)
unfolding write_projection
write_projection-ok job_id p db next h =
    done (insert_decisions (event_ids db.events) job_id p.0.decisions db.decisions) h
  where
    done :
        (o : Option (Dict String DecisionRow))
        → written_with job_id p db o ≡ ok next
        → (decisions : Dict String DecisionRow) × (written job_id p decisions db ≡ next)
    done none e = cc
    done (some decisions) e =
        (decisions, ok-injective (written_with job_id p db (some decisions)) refl e)

pub write_projection-projected :
    (job_id : String) (p : JobVisibility × VisibilityRow) (db next : EdrDatabase)
    → write_projection job_id p db ≡ ok next
    → next.projected ≡ db.projected
write_projection-projected job_id p db next h =
    let (decisions, e) = write_projection-ok job_id p db next h in
    subst (λ d. d.projected ≡ db.projected) e (written-projected job_id p decisions db)

-- A write that is done has a projection.
write_result-ok {ℓ} :
    {P : Type ℓ} (job_id : String) (db next : EdrDatabase)
    (r : Result Error (JobVisibility × VisibilityRow))
    → write_result job_id db r ≡ ok next
    → ((p : JobVisibility × VisibilityRow) → r ≡ ok p → write_projection job_id p db ≡ ok next → P)
    → P
write_result-ok job_id db next (raised error) h use_it = cc
write_result-ok job_id db next (ok p) h use_it = use_it p refl h

pub project_job-eq :
    (job_id : String) (db : EdrDatabase)
    → project_job job_id db ≡ write_result job_id db (projection_of db.events job_id)
unfolding project_job
project_job-eq job_id db = refl

-- A projection that succeeds has written the current row of its job, and marked nothing.
pub project_job-Current :
    (job_id : String) (db next : EdrDatabase)
    → project_job job_id db ≡ ok next
    → Keeps db next × Current next job_id × (next.projected ≡ db.projected)
project_job-Current job_id db next e =
    write_result-ok job_id db next (projection_of db.events job_id)
      (sym (project_job-eq job_id db) ∙ e)
      λ p same write.
        let (decisions, is_next) = write_projection-ok job_id p db next write in
        subst (λ d. Keeps db d × Current d job_id × (d.projected ≡ db.projected)) is_next
          (
            written-Keeps job_id p decisions db same,
            written-Current job_id p decisions db same,
            written-projected job_id p decisions db,
          )

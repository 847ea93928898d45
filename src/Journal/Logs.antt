-- ===== src/Journal/Logs.antt =====
-- The log of decisions of a replayed job is about events of its journal, so that the foreign key of
-- `projection_decisions` holds (`_project_job` of
-- src/job_visibility/edr_store/projection_worker.py).
use mathlib.Core.Path.{subst}
use job_scheduling_simulatio.Prelude.{
  String, ◌≡◌, refl, sym, ap, ◌∙◌, inl, inr, true, none, some, List, [], ◌∷◌, ◌++◌, Bool-cases,
  Option-cases, is_some, nat_key, text_key, All, All-append, contains, Dict, lookup, insert,
  Entries, lookup-Entries, insert-Entries, ok,
}
use job_scheduling_simulatio.Model.{Event, code_key, ProjectionDecision, JobVisibility}
use job_scheduling_simulatio.Journal.Tables.{
  VisibilityRow, DecisionRow, EdrDatabase, insert_decision, and_insert, insert_decisions,
}
use job_scheduling_simulatio.Journal.Projector.{written, event_ids, written_with, write_projection}
use job_scheduling_simulatio.Reducer.Reduce.{absorb, project, decide, record_decision}
use job_scheduling_simulatio.Reducer.Rules.{is_semantic_duplicate}
use job_scheduling_simulatio.Reducer.Version.{handle-version}
use job_scheduling_simulatio.Engine.Invariant.{JobsValid, current, reduced, reduce_visibility-ok}
use job_scheduling_simulatio.Engine.Store.{VisibilityEngine, exact_decision, log_duplicate, apply}

-- Each decision of a job is about one of the events of these ids.
abbrev pub IsLogged : List String → JobVisibility → Type 0
IsLogged ids job = All (λ (d : ProjectionDecision). contains d.event_id ids ≡ true) job.decisions

abbrev pub AllLogged : List String → VisibilityEngine → Type 0
AllLogged ids engine = Entries (λ (id : String) job. IsLogged ids job) engine.jobs

decide-decisions :
    (job : JobVisibility) (event : Event)
    → ((decide job event).0.decisions ≡ job.decisions)
      × ((decide job event).1.event_id ≡ event.event_id)
unfolding decide project absorb
decide-decisions job event = elim (Bool-cases (is_semantic_duplicate job event)) [
  | inl e ↦ rw (e, decide) (refl, refl)
  | inr e ↦ rw (e, decide) ((handle-version event.event_type (absorb job event) event).1, refl)
]

reduced-IsLogged :
    (ids : List String) (job : JobVisibility) (event : Event)
    → contains event.event_id ids ≡ true
    → IsLogged ids job
    → IsLogged ids (reduced job event)
unfolding record_decision
reduced-IsLogged ids job event m h =
    let (same, about) = decide-decisions job event in
    let inside = λ (d : ProjectionDecision). contains d.event_id ids ≡ true in
    All-append inside (decide job event).0.decisions ((decide job event).1 ∷ [])
      (subst (λ ds. All inside ds) (sym same) h)
      (subst (λ id. contains id ids ≡ true) (sym about) m, tt)

current-IsLogged :
    (ids : List String) (engine : VisibilityEngine) (event : Event)
    → AllLogged ids engine
    → IsLogged ids (current engine event)
current-IsLogged ids engine event h = elim (Option-cases (lookup event.job_id engine.jobs)) [
  | inl e ↦ rw e tt
  | inr (job, e) ↦
      rw e (lookup-Entries (λ (id : String) j. IsLogged ids j) event.job_id job engine.jobs h e)
]

log_duplicate-AllLogged :
    (ids : List String) (engine : VisibilityEngine) (event : Event)
    → contains event.event_id ids ≡ true
    → AllLogged ids engine
    → Entries
        (λ (id : String) job. IsLogged ids job)
        (log_duplicate (lookup event.job_id engine.jobs) event engine.jobs)
unfolding log_duplicate
log_duplicate-AllLogged ids engine event m h =
    elim (Option-cases (lookup event.job_id engine.jobs)) [
      | inl e ↦ rw e h
      | inr (job, e) ↦
          let old =
            lookup-Entries (λ (id : String) j. IsLogged ids j) event.job_id job engine.jobs h e in
          rw e (
            insert-Entries (λ (id : String) j. IsLogged ids j) event.job_id
              (record job { decisions = job.decisions ++ exact_decision event ∷ [] }) engine.jobs
              (All-append (λ (d : ProjectionDecision). contains d.event_id ids ≡ true) job.decisions
                (exact_decision event ∷ []) old (m, tt))
              h)
    ]

-- An event of these ids keeps the logs within them.
pub apply-AllLogged :
    (ids : List String) (engine : VisibilityEngine) (event : Event)
    → JobsValid engine
    → contains event.event_id ids ≡ true
    → AllLogged ids engine
    → AllLogged ids (apply engine event none).0
unfolding apply
apply-AllLogged ids engine event v m h =
    elim (Bool-cases (contains event.event_id engine.event_ids)) [
      | inl seen ↦ rw seen (log_duplicate-AllLogged ids engine event m h)
      | inr fresh ↦
          rw (fresh, reduce_visibility-ok engine event v)
            (insert-Entries (λ (id : String) j. IsLogged ids j) event.job_id _ engine.jobs
              (reduced-IsLogged ids (current engine event) event m
                (current-IsLogged ids engine event h))
              h)
    ]

insert_decision-ok :
    (ids : List String) (job_id : String) (d : ProjectionDecision) (table : Dict String DecisionRow)
    → contains d.event_id ids ≡ true
    → (next : Dict String DecisionRow) × (insert_decision ids job_id d table ≡ some next)
unfolding insert_decision
insert_decision-ok ids job_id d table m = elim (Bool-cases (is_some (lookup d.event_id table))) [
  | inl there ↦ (table, rw there refl)
  | inr new ↦ (
    insert d.event_id (record { job_id = job_id; decision = d.decision; reason = d.reason }) table,
    rw (new, m) refl,
  )
]

insert_decisions-ok :
    (ids : List String) (job_id : String) (decisions : List ProjectionDecision)
    (table : Dict String DecisionRow)
    → All (λ (d : ProjectionDecision). contains d.event_id ids ≡ true) decisions
    → (next : Dict String DecisionRow) × (insert_decisions ids job_id decisions table ≡ some next)
unfolding insert_decisions
insert_decisions-ok ids job_id [] table h = (table, refl)
insert_decisions-ok ids job_id (d ∷ rest) table h =
    let (middle, e) = insert_decision-ok ids job_id d table h.0 in
    let (next, e') = insert_decisions-ok ids job_id rest middle h.1 in
    (next, ap (λ o. and_insert o (λ t. insert_decisions ids job_id rest t)) e ∙ e')

-- A job whose log is about events of the journal is written.
pub write_projection-IsLogged :
    (job_id : String) (p : JobVisibility × VisibilityRow) (db : EdrDatabase)
    → IsLogged (event_ids db.events) p.0
    → (next : EdrDatabase) × (write_projection job_id p db ≡ ok next)
unfolding write_projection
write_projection-IsLogged job_id p db h =
    let (decisions, e) =
      insert_decisions-ok (event_ids db.events) job_id p.0.decisions db.decisions h in
    (written job_id p decisions db, ap (written_with job_id p db) e)

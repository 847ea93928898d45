-- ===== src/Reducer/Version.antt =====
-- The version and the decision log: `reduce_visibility` of src/job_visibility/engine.py counts what
-- it applies.
use job_scheduling_simulatio.Prelude.{
  suc, ◌≡◌, sym, ◌∙◌, inl, inr, Bool, true, false, arith, if◌then◌else◌, Bool-cases, count,
  count-snoc,
}
use job_scheduling_simulatio.Model.{
  EventType, Event, ProjectionDecision, JobVisibility, job_created, applied,
}
use job_scheduling_simulatio.Reducer.Reduce.{handle, absorb, project, decide, record_decision}
use job_scheduling_simulatio.Reducer.Rules.{is_semantic_duplicate}

abbrev pub is_applied : ProjectionDecision → Bool
is_applied d = elim d.decision [ applied ↦ true | _ ↦ false ]

-- No handler touches the version or the log of decisions.
pub handle-version :
    (k : EventType) (job : JobVisibility) (event : Event)
    → ((handle k job event).0.version ≡ job.version)
      × ((handle k job event).0.decisions ≡ job.decisions)
      × ((handle k job event).0.job_id ≡ job.job_id)
unfolding handle
handle-version job_created job event = ground arith
handle-version _ job event = ground arith

-- A job's version is the number of decisions that applied an event.
abbrev pub CountsApplied : JobVisibility → Type 0
CountsApplied job = job.version ≡ count is_applied job.decisions

pub record_decision-decide-job_id :
    (job : JobVisibility) (event : Event)
    → (record_decision event (decide job event)).0.job_id ≡ job.job_id
unfolding record_decision decide project absorb
record_decision-decide-job_id job event =
    ground (arith, handle-version event.event_type (absorb job event) event)

record_decision-CountsApplied :
    (event : Event) (job : JobVisibility) (d : ProjectionDecision)
    → job.version ≡ (
        if is_applied d
        then suc (count is_applied job.decisions)
        else count is_applied job.decisions)
    → CountsApplied (record_decision event (job, d)).0
unfolding record_decision
record_decision-CountsApplied event job d h = h ∙ sym (count-snoc is_applied job.decisions d)

-- One event keeps the version equal to the number of applied decisions, also when it is ignored or a
-- semantic duplicate.
pub decide-CountsApplied :
    (job : JobVisibility) (event : Event)
    → CountsApplied job
    → CountsApplied (record_decision event (decide job event)).0
unfolding decide project absorb
decide-CountsApplied job event h = elim (Bool-cases (is_semantic_duplicate job event)) [
  | inl e ↦ rw (e, decide) (record_decision-CountsApplied event _ _ h)
  | inr e ↦
      rw (e, decide)
        (record_decision-CountsApplied event _ _
          (ground (arith, h, handle-version event.event_type (absorb job event) event)))
]

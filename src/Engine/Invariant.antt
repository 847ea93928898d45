-- ===== src/Engine/Invariant.antt =====
-- What every reachable engine satisfies (src/job_visibility/engine.py): each projection stands under
-- its own job id, and its version counts the events applied to it.
use job_scheduling_simulatio.Prelude.{
  ℕ, String, ◌≡◌, refl, sym, ◌∙◌, ◌⊎◌, inl, inr, true, false, Option, none, List, [], ◌∷◌, ◌++◌,
  Bool-cases, Option-cases, nat_key, text_key, same_refl, count-snoc, contains, lookup, insert,
  Entries, lookup-Entries, insert-Entries, ok, raised,
}
use job_scheduling_simulatio.Model.{
  Event, code_key, ProjectionDecision, JobVisibility, new_job, version_conflict,
}
use job_scheduling_simulatio.Reducer.Retry.{IsCoherent, decide-IsCoherent}
use job_scheduling_simulatio.Reducer.Reduce.{decide, record_decision, job_or_new, reduce_visibility}
use job_scheduling_simulatio.Reducer.Version.{
  is_applied, CountsApplied, record_decision-decide-job_id, decide-CountsApplied,
}
use job_scheduling_simulatio.Engine.Store.{
  VisibilityEngine, exact_decision, log_duplicate, version_of, conflicts, expected_or, journal,
  apply, apply_all,
}

-- The projection of one job: it stands under its id, its version counts what was applied, and its
-- retry flags are coherent.
pub record IsProjection (id : String) (job : JobVisibility) : Type 0 where
  pub keyed : job.job_id ≡ id
  pub counted : CountsApplied job
  pub coherent : IsCoherent job

abbrev pub JobsValid : VisibilityEngine → Type 0
JobsValid engine = Entries IsProjection engine.jobs

abbrev pub current : VisibilityEngine → Event → JobVisibility
current engine event = job_or_new (lookup event.job_id engine.jobs) event

new_job-IsProjection : (id : String) → IsProjection id (new_job id)
new_job-IsProjection id = record {
  keyed = refl;
  counted = refl;
  coherent = record { requested = λ h. cc; timed = λ h. cc };
}

current-IsProjection :
    (engine : VisibilityEngine) (event : Event)
    → JobsValid engine
    → IsProjection event.job_id (current engine event)
current-IsProjection engine event v = elim (Option-cases (lookup event.job_id engine.jobs)) [
  | inl e ↦ rw e (new_job-IsProjection event.job_id)
  | inr (job, e) ↦ rw e (lookup-Entries IsProjection event.job_id job engine.jobs v e)
]

abbrev pub reduced : JobVisibility → Event → JobVisibility
reduced job event = (record_decision event (decide job event)).0

pub reduced-IsProjection :
    (job : JobVisibility) (event : Event)
    → IsProjection event.job_id job
    → IsProjection event.job_id (reduced job event)
reduced-IsProjection job event p = record {
  keyed = record_decision-decide-job_id job event ∙ p.keyed;
  counted = decide-CountsApplied job event p.counted;
  coherent = decide-IsCoherent job event p.coherent;
}

-- With its own projection an event is always reduced: the engine never raises ValueError.
pub reduce_visibility-ok :
    (engine : VisibilityEngine) (event : Event)
    → JobsValid engine
    → reduce_visibility (lookup event.job_id engine.jobs) event
      ≡ ok (record_decision event (decide (current engine event) event))
unfolding reduce_visibility
reduce_visibility-ok engine event v =
    rw (current-IsProjection engine event v).keyed (rw (same_refl event.job_id))

-- A duplicate that is logged keeps a projection valid.
log-IsProjection :
    (id : String) (job : JobVisibility) (event : Event)
    → IsProjection id job
    → IsProjection id (record job { decisions = job.decisions ++ exact_decision event ∷ [] })
log-IsProjection id job event p = record {
  keyed = p.keyed;
  counted = p.counted ∙ sym (count-snoc is_applied job.decisions (exact_decision event));
  coherent = record { requested = p.coherent.requested; timed = p.coherent.timed };
}

log_duplicate-Entries :
    (engine : VisibilityEngine) (event : Event)
    → JobsValid engine
    → Entries IsProjection (log_duplicate (lookup event.job_id engine.jobs) event engine.jobs)
unfolding log_duplicate
log_duplicate-Entries engine event v = elim (Option-cases (lookup event.job_id engine.jobs)) [
  | inl e ↦ rw (e, log_duplicate) v
  | inr (job, e) ↦
      rw (e, log_duplicate)
        (insert-Entries IsProjection event.job_id _ engine.jobs
          (log-IsProjection event.job_id job event
            (lookup-Entries IsProjection event.job_id job engine.jobs v e))
          v)
]

-- A fresh event that conflicts with no expected version is journalled, reduced and stored.
pub apply_fresh :
    (engine : VisibilityEngine) (event : Event) (expected_version : Option ℕ)
    → JobsValid engine
    → contains event.event_id engine.event_ids ≡ false
    → conflicts expected_version (version_of (lookup event.job_id engine.jobs)) ≡ false
    → apply engine event expected_version ≡ (
      record (journal engine event) {
        jobs = insert event.job_id (reduced (current engine event) event) engine.jobs;
      },
      ok (decide (current engine event) event).1,
    )
unfolding apply record_decision
apply_fresh engine event expected_version v fresh agrees =
    rw (fresh, agrees, reduce_visibility-ok engine event v)

-- Every call of `apply` keeps the projections valid, whatever it answers: each stands under its job
-- id, has a version that counts its applied events, and coherent retry flags.
pub apply-JobsValid :
    (engine : VisibilityEngine) (event : Event) (expected_version : Option ℕ)
    → JobsValid engine
    → JobsValid (apply engine event expected_version).0
unfolding apply
apply-JobsValid engine event expected_version v =
    elim (Bool-cases (contains event.event_id engine.event_ids)) [
      | inl seen ↦ rw seen (log_duplicate-Entries engine event v)
      | inr fresh ↦
          elim (Bool-cases
            (conflicts expected_version (version_of (lookup event.job_id engine.jobs)))) [
              | inl stale ↦ rw (fresh, stale) v
              | inr agrees ↦
                  rw (fresh, agrees, reduce_visibility-ok engine event v)
                    (insert-Entries IsProjection event.job_id _ engine.jobs
                      (reduced-IsProjection (current engine event) event
                        (current-IsProjection engine event v))
                      v)
            ]
    ]

pub apply_all-JobsValid :
    (engine : VisibilityEngine) (events : List Event)
    → JobsValid engine
    → JobsValid (apply_all engine events)
unfolding apply_all
apply_all-JobsValid engine [] v = v
apply_all-JobsValid engine (event ∷ rest) v =
    apply_all-JobsValid (apply engine event none).0 rest (apply-JobsValid engine event none v)

-- A call of `apply` on a valid engine returns a decision, or it raises a version conflict on a fresh
-- event and leaves the engine as it was; it raises nothing else.
pub apply-outcome :
    (engine : VisibilityEngine) (event : Event) (expected_version : Option ℕ)
    → JobsValid engine
    → ((d : ProjectionDecision) × ((apply engine event expected_version).1 ≡ ok d))
      ⊎ ((contains event.event_id engine.event_ids ≡ false)
          × (conflicts expected_version (version_of (lookup event.job_id engine.jobs)) ≡ true)
          × (apply engine event expected_version ≡ (
            engine,
            raised (
                version_conflict
                  (expected_or expected_version)
                  (version_of (lookup event.job_id engine.jobs))),
          )))
unfolding apply
apply-outcome engine event expected_version v =
    elim (Bool-cases (contains event.event_id engine.event_ids)) [
      | inl seen ↦ inl (exact_decision event, rw seen)
      | inr fresh ↦
          elim (Bool-cases
            (conflicts expected_version (version_of (lookup event.job_id engine.jobs)))) [
              | inl stale ↦ inr (fresh, stale, rw (fresh, stale))
              | inr agrees ↦ inl (
                (decide (current engine event) event).1,
                unfold record_decision in rw (fresh, agrees, reduce_visibility-ok engine event v),
              )
            ]
    ]

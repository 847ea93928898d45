-- ===== src/Engine/Optimistic.antt =====
-- The optimistic writer: `apply_with_retry` of src/job_visibility/engine.py, with no other writer
-- between its rounds.
use job_scheduling_simulatio.Prelude.{
  ℕ, zero, suc, ◌≡◌, refl, inl, inr, true, false, Option, none, some, arith, if◌then◌else◌,
  Bool-cases, ◌==◌, nat_key, text_key, same_refl, contains, lookup, Result, raised,
}
use job_scheduling_simulatio.Model.{
  Event, Error, code_key, ProjectionDecision, JobVisibility, key_error, version_conflict,
}
use job_scheduling_simulatio.Engine.Invariant.{JobsValid, apply-outcome}
use job_scheduling_simulatio.Engine.Store.{
  VisibilityEngine, version_of, conflicts, apply, after_conflict, apply_with_retry,
}

apply_agreed :
    (engine : VisibilityEngine) (event : Event) (v : ℕ)
    → conflicts (some v) (version_of (lookup event.job_id engine.jobs)) ≡ false
    → apply engine event (some v) ≡ apply engine event none
unfolding apply
apply_agreed engine event v agrees = rw agrees

apply_stale :
    (engine : VisibilityEngine) (event : Event) (v : ℕ)
    → contains event.event_id engine.event_ids ≡ false
    → conflicts (some v) (version_of (lookup event.job_id engine.jobs)) ≡ true
    → apply engine event (some v)
      ≡ (engine, raised (version_conflict v (version_of (lookup event.job_id engine.jobs))))
unfolding apply
apply_stale engine event v fresh stale = rw (fresh, stale)

apply_seen :
    (engine : VisibilityEngine) (event : Event) (expected : Option ℕ)
    → contains event.event_id engine.event_ids ≡ true
    → apply engine event expected ≡ apply engine event none
unfolding apply
apply_seen engine event expected seen = rw seen

-- The unconditional writer meets no conflict to handle.
after_conflict-unconditional :
    (again : VisibilityEngine → Event → ℕ → VisibilityEngine × Result Error ProjectionDecision)
    (engine : VisibilityEngine) (event : Event)
    → JobsValid engine
    → after_conflict again event (apply engine event none) ≡ apply engine event none
unfolding after_conflict
after_conflict-unconditional again engine event valid =
    elim (apply-outcome engine event none valid) [
      | inl (d, e) ↦ ground (arith, e)
      | inr (fresh, stale, e) ↦ cc
    ]

-- A round that answers as the unconditional writer is the last one.
last_round :
    (retries : ℕ) (engine : VisibilityEngine) (event : Event) (v : ℕ)
    → JobsValid engine
    → apply engine event (some v) ≡ apply engine event none
    → apply_with_retry retries engine event v ≡ apply engine event none
unfolding apply_with_retry
last_round zero engine event v valid e = e
last_round (suc retries) engine event v valid e =
    rw e (after_conflict-unconditional (apply_with_retry retries) engine event valid)

apply_current :
    (engine : VisibilityEngine) (event : Event) (job : JobVisibility)
    → lookup event.job_id engine.jobs ≡ some job
    → apply engine event (some job.version) ≡ apply engine event none
apply_current engine event job known =
    apply_agreed engine event job.version (rw known (rw (same_refl job.version)))

-- On a valid engine, with no other writer between its rounds: for a job that the engine knows, a
-- writer with at least one retry does exactly what a writer without an expected version does, whatever
-- version it first expects.
pub apply_with_retry_known :
    (retries : ℕ) (engine : VisibilityEngine) (event : Event) (v : ℕ) (job : JobVisibility)
    → JobsValid engine
    → lookup event.job_id engine.jobs ≡ some job
    → apply_with_retry (suc retries) engine event v ≡ apply engine event none
unfolding apply_with_retry
apply_with_retry_known retries engine event v job valid known =
    elim (Bool-cases (contains event.event_id engine.event_ids)) [
      | inl seen ↦
          last_round (suc retries) engine event v valid (apply_seen engine event (some v) seen)
      | inr fresh ↦
          elim (Bool-cases (conflicts (some v) (version_of (lookup event.job_id engine.jobs)))) [
            | inl stale ↦ rw (apply_stale engine event v fresh stale) (
                rw (known, after_conflict)
                  (last_round retries engine event job.version valid
                    (apply_current engine event job known)))
            | inr agrees ↦
                last_round (suc retries) engine event v valid (apply_agreed engine event v agrees)
          ]
    ]

-- A conflict on an unknown job.
unknown_stale :
    (retries : ℕ) (engine : VisibilityEngine) (event : Event) (v : ℕ)
    → lookup event.job_id engine.jobs ≡ none
    → apply engine event (some v)
      ≡ (engine, raised (version_conflict v (version_of (lookup event.job_id engine.jobs))))
    → apply_with_retry retries engine event v ≡ (
        if retries == 0
        then (engine, raised (version_conflict v 0))
        else (engine, raised key_error))
unfolding apply_with_retry
unknown_stale zero engine event v unknown stale = rw (stale, unknown) refl
unknown_stale (suc retries) engine event v unknown stale =
    rw stale (rw (unknown, after_conflict) (ground arith))

-- What a writer that expects version `v` of an unknown job ends in.
abbrev pub unknown_outcome :
    ℕ → VisibilityEngine → Event → ℕ → VisibilityEngine × Result Error ProjectionDecision
unknown_outcome retries engine event v =
    if v == 0
    then apply engine event none
    else if retries == 0
    then (engine, raised (version_conflict v 0))
    else (engine, raised key_error)

-- On a valid engine, for a job that the engine does not know and an event that it has not seen: a writer
-- that expects version zero does what a writer without an expected version does; one that expects
-- another version changes nothing and raises VersionConflict without a retry, and KeyError, in place of
-- a reload, with any.
pub apply_with_retry_unknown :
    (retries : ℕ) (engine : VisibilityEngine) (event : Event) (v : ℕ)
    → JobsValid engine
    → lookup event.job_id engine.jobs ≡ none
    → contains event.event_id engine.event_ids ≡ false
    → apply_with_retry retries engine event v ≡ unknown_outcome retries engine event v
apply_with_retry_unknown retries engine event v valid unknown fresh = elim (Bool-cases (v == 0)) [
  | inl zero_expected ↦ rw zero_expected (
      last_round retries engine event v valid
        (apply_agreed engine event v (rw unknown (ground (arith, zero_expected)))))
  | inr other ↦ rw other (
      unknown_stale retries engine event v unknown
        (apply_stale engine event v fresh (rw unknown (ground (arith, other)))))
]

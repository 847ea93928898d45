-- ===== src/Engine/Tests.antt =====
-- The engine of src/job_visibility/engine.py on concrete events, and its theorems at inputs that meet
-- their hypotheses.
use job_scheduling_simulatio.Prelude.{
  ◌≡◌, refl, ◌⊎◌, true, false, none, some, [], ◌∷◌, nat_key, text_key, contains, lookup, insert, ok,
  raised,
}
use job_scheduling_simulatio.Model.{
  Event, make_event, code_key, ProjectionDecision, new_job, default_config, job_created,
  job_scheduler_submission_requested, key_error, version_conflict,
}
use job_scheduling_simulatio.Reducer.Reduce.{record_decision, reduce_visibility}
use job_scheduling_simulatio.Engine.Delivery.{
  SameView, apply_all-redelivery, IsJournal, apply-IsJournal,
}
use job_scheduling_simulatio.Engine.Optimistic.{apply_with_retry_known, apply_with_retry_unknown}
use job_scheduling_simulatio.Engine.Invariant.{JobsValid, reduced, apply-JobsValid, apply-outcome}
use job_scheduling_simulatio.Engine.Store.{
  VisibilityEngine, new_engine, version_of, conflicts, store_result, journal, apply,
  apply_with_retry, apply_all,
}

abbrev first_event : Event
first_event = make_event "evt-1" job_created 10 11 "job-1"

abbrev second_event : Event
second_event = make_event "evt-2" job_scheduler_submission_requested 12 13 "job-1"

abbrev empty_engine : VisibilityEngine
empty_engine = new_engine default_config

-- The engine after the first event.
abbrev one_event : VisibilityEngine
one_event = (apply empty_engine first_event none).0

one_event_jobs : (lookup "job-1" one_event.jobs) ≡ some (reduced (new_job "job-1") first_event)
unfolding apply journal store_result lookup insert reduce_visibility record_decision
one_event_jobs = refl

one_event_seen : contains "evt-1" one_event.event_ids ≡ true
unfolding apply journal store_result lookup reduce_visibility
one_event_seen = refl

second_is_fresh : contains "evt-2" empty_engine.event_ids ≡ false
second_is_fresh = refl

apply-JobsValid_example : JobsValid one_event
apply-JobsValid_example = apply-JobsValid empty_engine first_event none tt

apply-outcome_example :
    ((d : ProjectionDecision) × ((apply empty_engine first_event (some 4)).1 ≡ ok d))
    ⊎ ((contains "evt-1" empty_engine.event_ids ≡ false)
        × (conflicts (some 4) (version_of (lookup "job-1" empty_engine.jobs)) ≡ true)
        × (apply empty_engine first_event (some 4) ≡ (
          empty_engine,
          raised (version_conflict 4 (version_of (lookup "job-1" empty_engine.jobs))),
        )))
apply-outcome_example = apply-outcome empty_engine first_event (some 4) tt

apply_all-redelivery_example :
    SameView one_event (apply_all one_event (first_event ∷ first_event ∷ []))
apply_all-redelivery_example =
    apply_all-redelivery one_event (first_event ∷ first_event ∷ [])
      (one_event_seen, (one_event_seen, tt))

apply-IsJournal_example : IsJournal one_event
apply-IsJournal_example =
    apply-IsJournal empty_engine first_event none (record { distinct = tt; ids = refl })

apply_with_retry_known_example :
    apply_with_retry 1 one_event second_event 7 ≡ apply one_event second_event none
apply_with_retry_known_example =
    apply_with_retry_known 0 one_event second_event 7 (reduced (new_job "job-1") first_event)
      apply-JobsValid_example one_event_jobs

no_job_yet : lookup "job-1" empty_engine.jobs ≡ none
unfolding lookup
no_job_yet = refl

apply_with_retry_unknown_example :
    apply_with_retry 3 empty_engine second_event 5 ≡ (empty_engine, raised key_error)
apply_with_retry_unknown_example =
    apply_with_retry_unknown 3 empty_engine second_event 5 tt no_job_yet second_is_fresh

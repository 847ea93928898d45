-- ===== src/Engine/Store.antt =====
-- The state of `VisibilityEngine`, `apply` and `apply_with_retry` (src/job_visibility/engine.py). The
-- lock makes a call of `apply` one step. A method returns the engine beside its result, also where it
-- raises.
use job_scheduling_simulatio.Prelude.{
  ℕ, zero, suc, String, Bool, true, false, not, Option, none, some, List, [], ◌∷◌, ◌++◌,
  if◌then◌else◌, ◌==◌, nat_key, text_key, contains, Dict, lookup, insert, Result, ok, raised,
}
use job_scheduling_simulatio.Model.{
  Event, Error, code_key, ProjectionDecision, JobVisibility, VisibilityConfig, key_error,
  version_conflict, exact_duplicate,
}
use job_scheduling_simulatio.Reducer.Reduce.{reduce_visibility}

pub record VisibilityEngine : Type 0 where
  pub config : VisibilityConfig
  pub jobs : Dict String JobVisibility
  pub event_ids : List String
  pub events : List Event

-- `VisibilityEngine(config)`.
abbrev pub new_engine : VisibilityConfig → VisibilityEngine
new_engine config = record { config = config; jobs = []; event_ids = []; events = [] }

abbrev pub exact_decision : Event → ProjectionDecision
exact_decision event = record {
  event_id = event.event_id;
  decision = exact_duplicate;
  reason = some "eventId seen";
}

-- The decision is logged with the job of the event, if there is one.
unfoldable pub log_duplicate :
    Option JobVisibility → Event → Dict String JobVisibility → Dict String JobVisibility
log_duplicate none event jobs = jobs
log_duplicate (some job) event jobs =
    insert event.job_id (record job { decisions = job.decisions ++ exact_decision event ∷ [] }) jobs

abbrev pub version_of : Option JobVisibility → ℕ
version_of none = 0
version_of (some job) = job.version

-- `expected_version is not None and expected_version != actual`.
abbrev pub conflicts : Option ℕ → ℕ → Bool
conflicts none actual = false
conflicts (some expected) actual = not (expected == actual)

abbrev pub expected_or : Option ℕ → ℕ
expected_or none = 0
expected_or (some expected) = expected

unfoldable pub store_result :
    VisibilityEngine
    → Event
    → Result Error (JobVisibility × ProjectionDecision)
    → VisibilityEngine × Result Error ProjectionDecision
store_result engine event (ok (job, decision)) =
    (record engine { jobs = insert event.job_id job engine.jobs }, ok decision)
store_result engine event (raised error) = (engine, raised error)

-- The event is journalled before it is reduced.
unfoldable pub journal : VisibilityEngine → Event → VisibilityEngine
journal engine event = record engine {
  event_ids = event.event_id ∷ engine.event_ids;
  events = engine.events ++ event ∷ [];
}

unfoldable pub apply :
    VisibilityEngine → Event → Option ℕ → VisibilityEngine × Result Error ProjectionDecision
unfolding log_duplicate store_result journal
apply engine event expected_version =
    let current = lookup event.job_id engine.jobs in
    if contains event.event_id engine.event_ids
    then (
      record engine { jobs = log_duplicate current event engine.jobs },
      ok (exact_decision event),
    )
    else if conflicts expected_version (version_of current)
    then (engine, raised (version_conflict (expected_or expected_version) (version_of current)))
    else store_result (journal engine event) event (reduce_visibility current event)

abbrev pub is_conflict : Result Error ProjectionDecision → Bool
is_conflict (raised (version_conflict expected actual)) = true
is_conflict _ = false

-- `self._jobs[job_id].version`.
reload : Option JobVisibility → Result Error ℕ
reload none = raised key_error
reload (some job) = ok job.version

-- `except VersionConflictError`: the version is reloaded, and the event applied `again`.
unfoldable pub after_conflict :
    (VisibilityEngine → Event → ℕ → VisibilityEngine × Result Error ProjectionDecision)
    → Event
    → VisibilityEngine × Result Error ProjectionDecision
    → VisibilityEngine × Result Error ProjectionDecision
unfolding reload
after_conflict again event (engine, raised (version_conflict expected actual)) =
    elim (reload (lookup event.job_id engine.jobs)) [
      | ok version ↦ again engine event version
      | raised error ↦ (engine, raised error)
    ]
after_conflict again event (engine, result) = (engine, result)

-- `retries` counts the rounds that are left after this one.
unfoldable pub apply_with_retry :
    ℕ → VisibilityEngine → Event → ℕ → VisibilityEngine × Result Error ProjectionDecision
unfolding after_conflict
apply_with_retry zero engine event expected_version = apply engine event (some expected_version)
apply_with_retry (suc retries) engine event expected_version =
    after_conflict (apply_with_retry retries) event (apply engine event (some expected_version))

-- The events of a transport delivered one after another, as `burst_deliver` does.
unfoldable pub apply_all : VisibilityEngine → List Event → VisibilityEngine
apply_all engine [] = engine
apply_all engine (event ∷ rest) = apply_all (apply engine event none).0 rest

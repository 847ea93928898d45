-- ===== src/Journal/Replays.antt =====
-- The projection of a sound journal raises nothing
-- (src/job_visibility/edr_store/projection_worker.py).
use mathlib.Core.Path.{subst}
use job_scheduling_simulatio.Prelude.{
  String, ◌≡◌, refl, sym, ap, ◌∙◌, ◌≢◌, ◌⊎◌, inl, inr, true, false, Option, none, some, List, [],
  ◌∷◌, ◌++◌, arith, ltb, Bool-cases, nat_key, text_key, All, contains, lookup, lookup-insert_self,
  ok,
}
use job_scheduling_simulatio.Model.{
  Time, Event, code_key, ProjectionDecision, JobVisibility, default_config,
}
use job_scheduling_simulatio.Journal.Parse.{event_from_wire}
use job_scheduling_simulatio.Journal.Logs.{AllLogged, apply-AllLogged}
use job_scheduling_simulatio.Journal.Tables.{EdrRow}
use job_scheduling_simulatio.Journal.Projector.{after_apply, apply_wire, replay}
use job_scheduling_simulatio.Reducer.Reduce.{decide, record_decision}
use job_scheduling_simulatio.Reducer.Rules.{latest}
use job_scheduling_simulatio.Engine.Invariant.{
  JobsValid, current, reduce_visibility-ok, apply-JobsValid, apply-outcome,
}
use job_scheduling_simulatio.Engine.Store.{
  VisibilityEngine, new_engine, exact_decision, log_duplicate, apply,
}

-- The payload of a row can be built, and is the event of the row, about the job of the row.
pub record IsSound (row : EdrRow) : Type 0 where
  pub event : Event
  pub built : event_from_wire row.canonical_payload ≡ ok event
  pub same_id : event.event_id ≡ row.event_id
  pub same_job : event.job_id ≡ row.job_id

-- The engine has the job, and the time of its data.
abbrev pub Seen : VisibilityEngine → String → Type 0
Seen engine job_id =
    (job : JobVisibility) × (lookup job_id engine.jobs ≡ some job)
    × (as_of : Time) × (job.data_as_of ≡ some as_of)

latest-some : (old : Option Time) (time : Time) → (t : Time) × (latest old (some time) ≡ some t)
unfolding latest
latest-some none time = (time, refl)
latest-some (some old) time = elim (Bool-cases (ltb old time)) [
  | inl later ↦ (time, ground (arith, later))
  | inr earlier ↦ (old, ground (arith, earlier))
]

log_duplicate-Seen :
    (engine : VisibilityEngine) (event : Event)
    → Seen engine event.job_id
    → Seen
        (record engine { jobs = log_duplicate (lookup event.job_id engine.jobs) event engine.jobs })
        event.job_id
unfolding log_duplicate
log_duplicate-Seen engine event (job, e, as_of, e') =
    let logged = record job { decisions = job.decisions ++ exact_decision event ∷ [] } in
    (logged, rw e (lookup-insert_self event.job_id logged engine.jobs), as_of, e')

-- An event that is fresh, or whose job has been seen, is answered, and its job has been seen then.
apply-Seen :
    (engine : VisibilityEngine) (event : Event)
    → JobsValid engine
    → (contains event.event_id engine.event_ids ≡ false) ⊎ Seen engine event.job_id
    → Seen (apply engine event none).0 event.job_id
unfolding apply
apply-Seen engine event v known = elim (Bool-cases (contains event.event_id engine.event_ids)) [
  | inl seen ↦ elim known [
    | inl fresh ↦ absurd (ground (arith, seen, fresh))
    | inr s ↦ rw seen (log_duplicate-Seen engine event s)
  ]
  | inr fresh ↦
      let old = decide (current engine event) event in
      let next = (record_decision event old).0 in
      let (t, e) = latest-some old.0.data_as_of event.ingestion_time in
      rw (fresh, reduce_visibility-ok engine event v)
        (next, lookup-insert_self event.job_id next engine.jobs, t, unfold record_decision in e)
]

-- An unconditional event is answered.
apply-answers :
    (engine : VisibilityEngine) (event : Event)
    → JobsValid engine
    → (d : ProjectionDecision) × ((apply engine event none).1 ≡ ok d)
apply-answers engine event v = elim (apply-outcome engine event none v) [
  | inl answered ↦ answered
  | inr (fresh, stale, same) ↦ absurd (ground (arith, stale))
]

-- A row of a journal: sound, about this job, and one of these events.
abbrev pub IsOf : List String → String → EdrRow → Type 0
IsOf ids job_id row = IsSound row × (row.job_id ≡ job_id) × (contains row.event_id ids ≡ true)

module _ (ids : List String) (job_id : String) where
  -- A sound row of a job is replayed, if its event is fresh or the job has been seen.
  apply_wire_sound :
      (row : EdrRow) (engine : VisibilityEngine)
      → IsOf ids job_id row
      → JobsValid engine
      → AllLogged ids engine
      → (engine.event_ids ≡ []) ⊎ Seen engine job_id
      → (next : VisibilityEngine) × (apply_wire (event_from_wire row.canonical_payload) engine
          ≡ ok next)
        × JobsValid next
        × AllLogged ids next
        × Seen next job_id
  apply_wire_sound row engine (s, same, inside) v logged known =
      let event = s.event in
      let about : event.job_id ≡ job_id = s.same_job ∙ same in
      let (d, answered) = apply-answers engine event v in
      (
        (apply engine event none).0,
        ap (λ e. apply_wire e engine) s.built
            ∙ ap (λ a. after_apply ((apply engine event none).0, a)) answered,
        apply-JobsValid engine event none v,
        apply-AllLogged ids engine event v
            (subst (λ id. contains id ids ≡ true) (sym s.same_id) inside) logged,
        subst (λ id. Seen (apply engine event none).0 id) about
            (apply-Seen engine event v (elim known [
              | inl none_yet ↦ inl (rw none_yet)
              | inr seen ↦ inr (subst (λ id. Seen engine id) (sym about) seen)
            ])),
      )

  replay-Seen :
      (rows : List EdrRow) (engine : VisibilityEngine)
      → All (IsOf ids job_id) rows
      → JobsValid engine
      → AllLogged ids engine
      → Seen engine job_id
      → (final : VisibilityEngine) × (replay engine rows ≡ ok final)
        × AllLogged ids final
        × Seen final job_id
  unfolding replay
  replay-Seen [] engine sound v logged seen = (engine, refl, logged, seen)
  replay-Seen (row ∷ rows) engine sound v logged seen =
      let (next, e, v', logged', seen') = apply_wire_sound row engine sound.0 v logged (inr seen) in
      let (final, e', logged'', seen'') = replay-Seen rows next sound.1 v' logged' seen' in
      (final, rw e e', logged'', seen'')

  pub replay_sound :
      (rows : List EdrRow)
      → rows ≢ []
      → All (IsOf ids job_id) rows
      → (final : VisibilityEngine) × (replay (new_engine default_config) rows ≡ ok final)
        × AllLogged ids final
        × Seen final job_id
  unfolding replay
  replay_sound [] some_row sound = absurd (some_row refl)
  replay_sound (row ∷ rows) some_row sound =
      let (next, e, v, logged, seen) =
        apply_wire_sound row (new_engine default_config) sound.0 tt tt (inl refl) in
      let (final, e', logged', seen') = replay-Seen rows next sound.1 v logged seen in
      (final, rw e e', logged', seen')

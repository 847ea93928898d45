-- ===== src/Journal/Malformed.antt =====
-- A row of the journal that cannot be turned into an event
-- (src/job_visibility/edr_store/projection_worker.py).
use mathlib.Core.Path.{subst}
use mathlib.Core.List.{Memᴰ}
use mathlib.Core.List.Memᴰ
use job_scheduling_simulatio.Prelude.{
  ℕ, ◌≡◌, refl, sym, ap, ◌∙◌, inl, inr, Bool, List, [], ◌∷◌, All-Mem, select-Mem, sort-Mem, sort,
  ◌==◌, nat_key, text_key, same_refl, select, Result, ok, raised,
}
use job_scheduling_simulatio.Model.{Error, JobVisibility, default_config}
use job_scheduling_simulatio.Journal.Parse.{event_from_wire}
use job_scheduling_simulatio.Journal.Tables.{EdrRow, VisibilityRow, EdrDatabase}
use job_scheduling_simulatio.Journal.Rounds.{run_round-cases}
use job_scheduling_simulatio.Journal.Projector.{
  ProjectionFailure, persisted_le, job_journal, apply_wire, and_then_replay, replay,
  project_replayed, projection_of, pending_rows, run_round,
}
use job_scheduling_simulatio.Journal.Current.{Current}
use job_scheduling_simulatio.Scheduler.Types.{Checkpoint}
use job_scheduling_simulatio.Engine.View.{found}
use job_scheduling_simulatio.Engine.Store.{VisibilityEngine, new_engine}

-- What raises from every engine raises after a step that may raise.
bound-raises :
    (r : Result Error VisibilityEngine) (f : VisibilityEngine → Result Error VisibilityEngine)
    → ((next : VisibilityEngine) → (error : Error) × (f next ≡ raised error))
    → (error : Error) × (and_then_replay r f ≡ raised error)
bound-raises (raised error) f h = (error, refl)
bound-raises (ok next) f h = h next

replay-malformed :
    (refusal : Error) (row : EdrRow) (rows : List EdrRow) (engine : VisibilityEngine)
    → event_from_wire row.canonical_payload ≡ raised refusal
    → Memᴰ row rows
    → (error : Error) × (replay engine rows ≡ raised error)
unfolding replay
replay-malformed refusal row [] engine unbuilt m = absurd (Memᴰ.not-nil m)
replay-malformed refusal row (first ∷ rows) engine unbuilt m = elim (Memᴰ.cases_cons m) [
  | inl e ↦
      let first_unbuilt =
        subst (λ (r : EdrRow). event_from_wire r.canonical_payload ≡ raised refusal) e unbuilt in
      (refusal, rw first_unbuilt refl)
  | inr below ↦
      bound-raises (apply_wire (event_from_wire first.canonical_payload) engine)
        (λ next. replay next rows) (λ next. replay-malformed refusal row rows next unbuilt below)
]

projection_of-malformed :
    (refusal : Error) (row : EdrRow) (events : List EdrRow)
    → event_from_wire row.canonical_payload ≡ raised refusal
    → Memᴰ row events
    → (error : Error) × (projection_of events row.job_id ≡ raised error)
unfolding projection_of job_journal
projection_of-malformed refusal row events unbuilt m =
    let own = select (λ (r : EdrRow). r.job_id == row.job_id) events in
    let (error, e) =
      replay-malformed refusal row (sort persisted_le own) (new_engine default_config) unbuilt (
        sort-Mem persisted_le row own (
          select-Mem (λ (r : EdrRow). r.job_id == row.job_id) events row m
            (same_refl row.job_id))) in
    (error, ap (project_replayed row.job_id) e)

-- While `event_from_wire` raises on the payload of a row of the journal, every round whose batch has an
-- event of the row's job raises and changes nothing.
pub run_round-malformed :
    (locked : EdrRow → Bool) (batch_size : ℕ) (fault : Checkpoint → EdrRow → Bool)
    (hook_raises : List EdrRow → Bool) (db : EdrDatabase) (refusal : Error) (row other : EdrRow)
    → event_from_wire row.canonical_payload ≡ raised refusal
    → Memᴰ row db.events
    → Memᴰ other (pending_rows locked batch_size db)
    → other.job_id ≡ row.job_id
    → (failure : ProjectionFailure) × (run_round locked batch_size fault hook_raises db
        ≡ (db, raised failure))
run_round-malformed locked batch_size fault hook_raises db refusal row other unbuilt m batched
      same =
    elim (run_round-cases locked batch_size fault hook_raises db) [
      | inl (answered, p) ↦
          let next = (run_round locked batch_size fault hook_raises db).0 in
          let (error, e) = projection_of-malformed refusal row db.events unbuilt m in
          let (q, e', found) =
            All-Mem (λ r. Current next r.job_id) (pending_rows locked batch_size db) other p.brought
              batched in
          let there : projection_of db.events row.job_id ≡ ok q =
            ap (λ events. projection_of events row.job_id) (sym p.keeps.same_events)
            ∙ ap (projection_of next.events) (sym same)
            ∙ e' in
          absurd (clash (projection_of db.events row.job_id) there e)
      | inr (failure, raises, unchanged) ↦ (failure, λ i. (unchanged i, raises i))
    ]
  where
    clash :
        {q : JobVisibility × VisibilityRow} {error : Error}
        (r : Result Error (JobVisibility × VisibilityRow))
        → r ≡ ok q
        → r ≡ raised error
        → ⊥
    clash r h k = cc

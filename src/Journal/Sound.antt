-- ===== src/Journal/Sound.antt =====
-- A job of a journal of sound rows has a projection
-- (`_project_job` of src/job_visibility/edr_store/projection_worker.py).
use mathlib.Core.Path.{subst}
use mathlib.Core.List.{Memᴰ}
use job_scheduling_simulatio.Prelude.{
  String, ◌≡◌, sym, ap, ◌∙◌, ◌≢◌, inl, inr, Bool, true, List, [], map, arith, All-Members,
  select-Mem, Mem-contains, contains-sort, sort, sort-All, ◌==◌, nat_key, text_key, same_refl,
  select, All, All-select, List-cases, contains, All-weaken, All-zip, lookup, lookup-Entries,
  ok-injective, ok-raised, ok, raised,
}
use job_scheduling_simulatio.Model.{code_key, JobVisibility, default_config, job_not_found}
use job_scheduling_simulatio.Journal.Replays.{IsSound, Seen, IsOf, replay_sound}
use job_scheduling_simulatio.Journal.Logs.{IsLogged, AllLogged}
use job_scheduling_simulatio.Journal.Tables.{EdrRow, VisibilityRow}
use job_scheduling_simulatio.Journal.Projector.{
  persisted_le, job_journal, replay, visibility_row, project_at, project_replayed, projection_of,
  event_ids,
}
use job_scheduling_simulatio.Engine.View.{snapshot}
use job_scheduling_simulatio.Engine.Store.{VisibilityEngine, new_engine}

job_journal-some :
    (row : EdrRow) (events : List EdrRow) → Memᴰ row events → job_journal row.job_id events ≢ []
unfolding job_journal
job_journal-some row events m empty =
    let ids : List EdrRow → List String = λ rows. map (λ (r : EdrRow). r.event_id) rows in
    let own = select (λ (r : EdrRow). r.job_id == row.job_id) events in
    let inside : contains row.event_id (ids (sort persisted_le own)) ≡ true =
      contains-sort (λ (r : EdrRow). r.event_id) row.event_id persisted_le own
      ∙ Mem-contains (λ (r : EdrRow). r.event_id) own row
          (select-Mem (λ (r : EdrRow). r.job_id == row.job_id) events row m
            (same_refl row.job_id)) in
    ground (arith, sym (ap (λ rows. contains row.event_id (ids rows)) empty) ∙ inside)

job_journal-IsOf :
    (job_id : String) (events : List EdrRow)
    → All IsSound events
    → All (IsOf (event_ids events) job_id) (job_journal job_id events)
unfolding job_journal
job_journal-IsOf job_id events sound =
    let own : EdrRow → Bool = λ row. row.job_id == job_id in
    let P : EdrRow → Type 0 = λ row. IsSound row × Memᴰ row events in
    sort-All persisted_le (IsOf (event_ids events) job_id) (select own events) (
      All-weaken (λ row. P row × (own row ≡ true)) (IsOf (event_ids events) job_id)
        (select own events)
        (λ row h. (
          h.0.0,
          (text_key.same_iff row.job_id job_id).0 h.1,
          Mem-contains (λ (r : EdrRow). r.event_id) events row h.0.1,
        ))
        (All-select P own events
          (All-zip IsSound (λ row. Memᴰ row events) events sound (All-Members events))))

project_replayed-ok :
    (ids : List String) (job_id : String) (engine : VisibilityEngine)
    → AllLogged ids engine
    → Seen engine job_id
    → (p : JobVisibility × VisibilityRow) × (project_replayed job_id (ok engine) ≡ ok p)
      × IsLogged ids p.0
unfolding snapshot
project_replayed-ok ids job_id engine logged (job, e, as_of, e') = (
  (job, visibility_row engine job as_of),
  rw e (ap (λ o. project_at o engine job) e'),
  lookup-Entries (λ (id : String) j. IsLogged ids j) job_id job engine.jobs logged e,
)

projection_of_some :
    (events : List EdrRow) (job_id : String)
    → All IsSound events
    → job_journal job_id events ≢ []
    → (p : JobVisibility × VisibilityRow) × (projection_of events job_id ≡ ok p)
      × IsLogged (event_ids events) p.0
unfolding projection_of
projection_of_some events job_id sound some_row =
    let (final, e, logged, seen) =
      replay_sound (event_ids events) job_id (job_journal job_id events) some_row
        (job_journal-IsOf job_id events sound) in
    let (p, e', in_journal) = project_replayed-ok (event_ids events) job_id final logged seen in
    (p, ap (project_replayed job_id) e ∙ e', in_journal)

-- A job of a journal of sound rows has a projection, with a log about events of the journal.
pub projection_of_sound :
    (events : List EdrRow) (row : EdrRow)
    → All IsSound events
    → Memᴰ row events
    → (p : JobVisibility × VisibilityRow) × (projection_of events row.job_id ≡ ok p)
      × IsLogged (event_ids events) p.0
projection_of_sound events row sound m =
    projection_of_some events row.job_id sound (job_journal-some row events m)

projection_of_none :
    (events : List EdrRow) (job_id : String)
    → job_journal job_id events ≡ []
    → projection_of events job_id ≡ raised (job_not_found job_id)
unfolding projection_of snapshot replay lookup
projection_of_none events job_id empty =
    ap (λ rows. project_replayed job_id (replay (new_engine default_config) rows)) empty

-- Whatever a journal of sound rows gives has such a log.
pub projection_of-IsLogged :
    (events : List EdrRow) (job_id : String) (p : JobVisibility × VisibilityRow)
    → All IsSound events
    → projection_of events job_id ≡ ok p
    → IsLogged (event_ids events) p.0
projection_of-IsLogged events job_id p sound read = elim (List-cases (job_journal job_id events)) [
  | inl empty ↦
      absurd (ok-raised (projection_of events job_id) read (projection_of_none events job_id empty))
  | inr some_row ↦
      let (q, e, logged) = projection_of_some events job_id sound some_row in
      subst (λ (r : JobVisibility × VisibilityRow). IsLogged (event_ids events) r.0)
        (ok-injective (projection_of events job_id) e read) logged
]

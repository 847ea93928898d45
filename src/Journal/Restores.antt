-- ===== src/Journal/Restores.antt =====
-- A rebuild restores the projection of a sound journal, whatever the tables held
-- (`rebuild` of src/job_visibility/edr_store/projection_worker.py).
use mathlib.Core.Path.{subst}
use mathlib.Core.List.{Memᴰ}
use job_scheduling_simulatio.Prelude.{
  String, ◌≡◌, refl, sym, ap, ◌∙◌, List, [], ◌∷◌, All-Members, Mem-contains, contains-Mem, nat_key,
  text_key, length, All, contains, All-weaken, ok,
}
use job_scheduling_simulatio.Journal.Replays.{IsSound}
use job_scheduling_simulatio.Journal.Rebuild.{map_self, contains-journal_jobs, rebuild-Current}
use job_scheduling_simulatio.Journal.Progress.{project_job_sound}
use job_scheduling_simulatio.Journal.Tables.{EdrRow, EdrDatabase}
use job_scheduling_simulatio.Journal.Projector.{
  project_job, bind_db, commit_round, journal_jobs, project_jobs, rebuild,
}
use job_scheduling_simulatio.Journal.Current.{Current, project_job-Current}

abbrev HasRow : List EdrRow → String → Type 0
HasRow events job_id = (row : EdrRow) × Memᴰ row events × (job_id ≡ row.job_id)

journal_jobs-HasRow : (events : List EdrRow) → All (HasRow events) (journal_jobs events)
journal_jobs-HasRow events =
    let jobs = journal_jobs events in
    All-weaken (λ id. Memᴰ id jobs) (HasRow events) jobs
      (λ id m.
        contains-Mem (λ (row : EdrRow). row.job_id) id events
          (sym (contains-journal_jobs id events)
            ∙ ap (contains id) (sym (map_self jobs))
            ∙ Mem-contains (λ (k : String). k) jobs id m))
      (All-Members jobs)

project_jobs_sound :
    (ids : List String) (db : EdrDatabase)
    → All IsSound db.events
    → All (HasRow db.events) ids
    → (next : EdrDatabase) × (project_jobs ids db ≡ ok next)
unfolding project_jobs
project_jobs_sound [] db sound rows = (db, refl)
project_jobs_sound (id ∷ ids) db sound rows =
    let (row, m, about) = rows.0 in
    let (middle, e) = project_job_sound row db sound m in
    let here : project_job id db ≡ ok middle = ap (λ k. project_job k db) about ∙ e in
    let same = (project_job-Current id db middle here).0.same_events in
    let (next, e') =
      project_jobs_sound ids middle (subst (λ events. All IsSound events) (sym same) sound)
        (subst (λ events. All (HasRow events) ids) (sym same) rows.1) in
    (next, ap (λ r. bind_db r (λ d. project_jobs ids d)) here ∙ e')

-- If the payload of every row of the journal can be built and is the event of the row, about its job,
-- a rebuild answers the number of its jobs, and then the row of a
-- job of the journal is what its journal gives, whatever the tables held before.
pub rebuild-restores :
    (db : EdrDatabase) (row : EdrRow)
    → All IsSound db.events
    → Memᴰ row db.events
    → ((rebuild db).1 ≡ ok (length (journal_jobs db.events))) × Current (rebuild db).0 row.job_id
unfolding rebuild
rebuild-restores db row sound m =
    let ids = journal_jobs db.events in
    let (next, e) = project_jobs_sound ids db sound (journal_jobs-HasRow db.events) in
    let answered : (rebuild db).1 ≡ ok (length ids) =
      ap (λ r. (commit_round (length ids) db r).1) e in
    (answered, rebuild-Current db (length ids) answered row m)

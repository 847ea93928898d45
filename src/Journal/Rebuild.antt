-- ===== src/Journal/Rebuild.antt =====
-- What a rebuild does (`rebuild` of src/job_visibility/edr_store/projection_worker.py).
use mathlib.Core.Path.{subst}
use mathlib.Core.List.{Memᴰ}
use job_scheduling_simulatio.Prelude.{
  ℕ, String, ◌≡◌, refl, sym, ap, ◌∙◌, ◌⊎◌, inl, inr, true, List, [], ◌∷◌, map, arith, All-Mem,
  Mem-contains, contains-Mem, Distinct, contains-sort, sort, text_le, is_some, nat_key, text_key,
  length, All, contains, lookup, Result, ok-injective, ok, raised,
}
use job_scheduling_simulatio.Model.{code_key}
use job_scheduling_simulatio.Journal.Tables.{EdrRow, EdrDatabase}
use job_scheduling_simulatio.Journal.Rounds.{bind_db-ok}
use job_scheduling_simulatio.Journal.Projector.{
  ProjectionFailure, project_job, commit_round, distinct_ids, journal_jobs, project_jobs, rebuild,
}
use job_scheduling_simulatio.Journal.Reachable.{IsConsistent}
use job_scheduling_simulatio.Journal.Current.{
  Current, Keeps, Keeps-self, Keeps-then, project_job-Current,
}
use job_scheduling_simulatio.Engine.Invariant.{current}

-- What projecting jobs does.
pub record Rebuilds (ids : List String) (db next : EdrDatabase) : Type 0 where
  pub keeps : Keeps db next
  pub brought : All (λ id. Current next id) ids
  pub same_projected : next.projected ≡ db.projected

project_jobs-Rebuilds :
    (ids : List String) (db next : EdrDatabase)
    → project_jobs ids db ≡ ok next
    → Rebuilds ids db next
unfolding project_jobs
project_jobs-Rebuilds [] db next e =
    subst (Rebuilds [] db) (ok-injective _ refl e)
      (record { keeps = Keeps-self db; brought = tt; same_projected = refl })
project_jobs-Rebuilds (id ∷ ids) db next e =
    bind_db-ok (project_job id db) _ next e λ middle first rest.
      let (keeps, current, same) = project_job-Current id db middle first in
      let q = project_jobs-Rebuilds ids middle next rest in
      record {
        keeps = Keeps-then db middle next keeps q.keeps;
        brought = (q.keeps.current id current, q.brought);
        same_projected = q.same_projected ∙ same;
      }

-- A rebuild has projected every job of the journal, or it has raised and changed nothing.
pub rebuild-cases :
    (db : EdrDatabase)
    → let (next, answer) = rebuild db in
      let ids = journal_jobs db.events in
      ((answer ≡ ok (length ids)) × Rebuilds ids db next)
      ⊎ ((failure : ProjectionFailure) × (answer ≡ raised failure) × (next ≡ db))
unfolding rebuild
rebuild-cases db =
    committed (journal_jobs db.events) (project_jobs (journal_jobs db.events) db) refl
  where
    committed :
        (ids : List String) (r : Result ProjectionFailure EdrDatabase)
        → project_jobs ids db ≡ r
        → let (next, answer) = commit_round (length ids) db r in
          ((answer ≡ ok (length ids)) × Rebuilds ids db next)
          ⊎ ((failure : ProjectionFailure) × (answer ≡ raised failure) × (next ≡ db))
    committed ids (raised failure) e = inr (failure, refl, refl)
    committed ids (ok next) e = inl (refl, project_jobs-Rebuilds ids db next e)

contains-distinct_ids :
    (id : String) (ids : List String) → contains id (distinct_ids ids) ≡ contains id ids
unfolding distinct_ids
contains-distinct_ids id [] = refl
contains-distinct_ids id (other ∷ ids) = ground (
  arith,
  contains-distinct_ids id ids,
  contains-distinct_ids other ids,
  text_key.same_iff id other,
)

pub map_self : (ids : List String) → map (λ (id : String). id) ids ≡ ids
map_self [] = refl
map_self (id ∷ ids) = ap (λ rest. id ∷ rest) (map_self ids)

-- The jobs that are rebuilt are those of the journal.
pub contains-journal_jobs :
    (id : String) (events : List EdrRow)
    → contains id (journal_jobs events) ≡ contains id (map (λ (row : EdrRow). row.job_id) events)
unfolding journal_jobs
contains-journal_jobs id events =
    let ids = distinct_ids (map (λ (row : EdrRow). row.job_id) events) in
    sym (ap (contains id) (map_self (sort text_le ids)))
    ∙ contains-sort (λ (k : String). k) id text_le ids
    ∙ ap (contains id) (map_self ids)
    ∙ contains-distinct_ids id (map (λ (row : EdrRow). row.job_id) events)

-- After a rebuild that does not raise, the row of every job of the journal is what its journal gives.
pub rebuild-Current :
    (db : EdrDatabase) (n : ℕ)
    → (rebuild db).1 ≡ ok n
    → (row : EdrRow) → Memᴰ row db.events
    → Current (rebuild db).0 row.job_id
rebuild-Current db n e row m = elim (rebuild-cases db) [
  | inl (answered, r) ↦
      let inside : contains row.job_id (map (λ (id : String). id) (journal_jobs db.events)) ≡ true =
        ap (contains row.job_id) (map_self (journal_jobs db.events))
        ∙ contains-journal_jobs row.job_id db.events
        ∙ Mem-contains (λ (row : EdrRow). row.job_id) db.events row m in
      let (id, mi, same) =
        contains-Mem (λ (id : String). id) row.job_id (journal_jobs db.events) inside in
      subst (λ k. Current (rebuild db).0 k) (sym same)
        (All-Mem (λ k. Current (rebuild db).0 k) (journal_jobs db.events) id r.brought mi)
  | inr (failure, raises, same) ↦ absurd (ground (arith, e, raises))
]

pub rebuild-IsConsistent : (db : EdrDatabase) → IsConsistent db → IsConsistent (rebuild db).0
rebuild-IsConsistent db c = elim (rebuild-cases db) [
  | inl (answered, r) ↦
      let next = (rebuild db).0 in
      let ids : (rows : List EdrRow) → List String =
        λ rows. map (λ (row : EdrRow). row.event_id) rows in
      record {
        distinct = subst (λ rows. Distinct (ids rows)) (sym r.keeps.same_events) c.distinct;
        known = λ id h.
            ap (λ rows. contains id (ids rows)) r.keeps.same_events
            ∙ c.known id (sym (ap (λ p. is_some (lookup id p)) r.same_projected) ∙ h);
        settled = λ row m.
            elim (c.settled row (subst (λ rows. Memᴰ row rows) r.keeps.same_events m)) [
              | inl (w, mw, same, waits) ↦ inl (
                w,
                subst (λ rows. Memᴰ w rows) (sym r.keeps.same_events) mw,
                same,
                ap (λ p. is_some (lookup w.event_id p)) r.same_projected ∙ waits,
              )
              | inr current ↦ inr (r.keeps.current row.job_id current)
            ];
      }
  | inr (failure, answered, same) ↦ subst IsConsistent (sym same) c
]

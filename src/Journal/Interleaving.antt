-- ===== src/Journal/Interleaving.antt =====
-- Two workers on one job: `SKIP LOCKED` keeps their rows apart, but not their jobs, and each of their
-- statements sees what is committed before it
-- (src/job_visibility/edr_store/projection_worker.py).
use mathlib.Core.Path.{subst}
use mathlib.Core.List.{Memᴰ}
use job_scheduling_simulatio.Prelude.{
  ℕ, String, ◌≡◌, refl, sym, ap, ◌∙◌, Bool, true, some, [], ◌∷◌, ◌++◌, arith, All-Mem, Mem-contains,
  contains-append, is_some, nat_key, text_key, same_refl, All, All-append_left, contains,
  All-weaken, lookup, Result, ok,
}
use job_scheduling_simulatio.Model.{code_key, ProjectionDecision, JobVisibility}
use job_scheduling_simulatio.Journal.Replays.{IsSound}
use job_scheduling_simulatio.Journal.Progress.{no_row_fault, no_hook, run_round_sound}
use job_scheduling_simulatio.Journal.Logs.{IsLogged, write_projection-IsLogged}
use job_scheduling_simulatio.Journal.Sound.{projection_of-IsLogged}
use job_scheduling_simulatio.Journal.Tables.{EdrRow, VisibilityRow, EdrDatabase}
use job_scheduling_simulatio.Journal.Rounds.{mark_projected-marked}
use job_scheduling_simulatio.Journal.Projector.{
  ProjectionFailure, projection_of, event_ids, write_projection, pending_rows, bind_db,
  mark_projected, run_round,
}
use job_scheduling_simulatio.Journal.Reachable.{arrive}
use job_scheduling_simulatio.Journal.Current.{
  Current, written-row, write_projection-ok, write_projection-projected,
}

-- What a worker does for its row after it has read the journal.
abbrev pub late_write :
    EdrRow → JobVisibility × VisibilityRow → EdrDatabase → Result ProjectionFailure EdrDatabase
late_write row p db =
    bind_db (write_projection row.job_id p db) λ next. ok (mark_projected row next)

mark_projected-row :
    (row : EdrRow) (db : EdrDatabase) (job_id : String)
    → lookup job_id (mark_projected row db).visibility ≡ lookup job_id db.visibility
unfolding mark_projected
mark_projected-row row db job_id = refl

-- What was read before an event arrived can be written after a round.
stale-IsLogged :
    (db next : EdrDatabase) (job_id : String) (other : EdrRow) (p : JobVisibility × VisibilityRow)
    → next.events ≡ (arrive other db).events
    → projection_of db.events job_id ≡ ok p
    → All IsSound (arrive other db).events
    → IsLogged (event_ids next.events) p.0
stale-IsLogged db next job_id other p same read sound =
    subst (λ events. IsLogged (event_ids events) p.0) (sym same)
      (All-weaken (λ (d : ProjectionDecision). contains d.event_id (event_ids db.events) ≡ true)
        (λ (d : ProjectionDecision).
          contains d.event_id (event_ids (db.events ++ other ∷ [])) ≡ true)
        p.0.decisions
        (λ d inside. ground (
          arith,
          inside,
          contains-append (λ (r : EdrRow). r.event_id) d.event_id db.events (other ∷ []),
        ))
        (projection_of-IsLogged db.events job_id p
          (All-append_left IsSound db.events (other ∷ []) sound) read))

-- A worker reads the journal of a job, another event of the job arrives, a round of a second worker
-- over sound rows projects it, and then the first worker writes, which raises nothing. After the round
-- the row of the job is what its journal gives; after the write it is the one that the first worker has
-- read, and the events of both workers are projected.
pub late_write_stale :
    (locked : EdrRow → Bool) (batch_size : ℕ) (db : EdrDatabase) (row other : EdrRow)
    (p : JobVisibility × VisibilityRow)
    → other.job_id ≡ row.job_id
    → projection_of db.events row.job_id ≡ ok p
    → Memᴰ other (pending_rows locked batch_size (arrive other db))
    → All IsSound (arrive other db).events
    → let next = (run_round locked batch_size no_row_fault no_hook (arrive other db)).0 in
      Current next row.job_id
      × ((final : EdrDatabase) × (late_write row p next ≡ ok final)
          × (lookup row.job_id final.visibility ≡ some p.1)
          × (is_some (lookup row.event_id final.projected) ≡ true)
          × (is_some (lookup other.event_id final.projected) ≡ true))
late_write_stale locked batch_size db row other p same read batched sound =
    let next = (run_round locked batch_size no_row_fault no_hook (arrive other db)).0 in
    let batch = pending_rows locked batch_size (arrive other db) in
    let q = (run_round_sound locked batch_size (arrive other db) sound).1 in
    let (after, write) =
      write_projection-IsLogged row.job_id p next
        (stale-IsLogged db next row.job_id other p q.keeps.same_events read sound) in
    let (decisions, is_after) = write_projection-ok row.job_id p next after write in
    let marks =
      mark_projected-marked row next after
        (write_projection-projected row.job_id p next after write) in
    let marked : is_some (lookup other.event_id next.projected) ≡ true = ground (
      arith,
      q.marked other.event_id,
      Mem-contains (λ (r : EdrRow). r.event_id) batch other batched,
    ) in
    (
      subst (λ id. Current next id) same
          (All-Mem (λ r. Current next r.job_id) batch other q.brought batched),
      (
        mark_projected row after,
        ap (λ r. bind_db r (λ d. ok (mark_projected row d))) write,
        mark_projected-row row after row.job_id
            ∙ subst (λ (d : EdrDatabase). lookup row.job_id d.visibility ≡ some p.1) is_after
                (written-row row.job_id p decisions next),
        ground (arith, marks row.event_id, same_refl row.event_id),
        ground (arith, marks other.event_id, marked),
      ),
    )

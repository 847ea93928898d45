-- ===== src/Journal/Consistency.antt =====
-- What every writer of the EDR database keeps, and what its readers get of it
-- (src/job_visibility/edr_store/projection_worker.py and src/job_visibility/edr_store/repository.py).
use mathlib.Core.Path.{subst}
use mathlib.Core.List.{Memᴰ}
use mathlib.Core.List.Memᴰ
use job_scheduling_simulatio.Prelude.{
  ℕ, String, ◌≡◌, sym, ap, ◌∙◌, ◌⊎◌, inl, inr, Bool, true, false, List, map, arith, All-Mem,
  All-Members, Mem-contains, contains-Mem, Distinct-injective, Distinct, sort, sort-All, Bool-cases,
  is_some, nat_key, text_key, select, All, All-select, All-take, contains, All-weaken, lookup, ok,
}
use job_scheduling_simulatio.Model.{code_key, JobVisibility}
use job_scheduling_simulatio.Journal.Rebuild.{rebuild-IsConsistent}
use job_scheduling_simulatio.Journal.Tables.{EdrRow, VisibilityRow, EdrDatabase}
use job_scheduling_simulatio.Journal.Rounds.{Projects, run_round-cases}
use job_scheduling_simulatio.Journal.Projector.{
  persisted_le, projection_of, is_pending, pending_rows, run_round,
}
use job_scheduling_simulatio.Journal.Reachable.{
  ids_of, Reaches, Awaits, IsConsistent, arrive-IsConsistent, begins, arrives, projects, rebuilds,
}
use job_scheduling_simulatio.Journal.Current.{Current}
use job_scheduling_simulatio.Journal.Reader.{read_job}
use job_scheduling_simulatio.Scheduler.Types.{Checkpoint}
use job_scheduling_simulatio.Engine.Invariant.{current}
use job_scheduling_simulatio.Engine.View.{found}

-- A row of a batch is one of the journal.
pub pending_rows-Mem :
    (locked : EdrRow → Bool) (limit : ℕ) (db : EdrDatabase)
    → All (λ row. Memᴰ row db.events) (pending_rows locked limit db)
unfolding pending_rows
pending_rows-Mem locked limit db =
    All-take (λ row. Memᴰ row db.events) limit
      (sort persisted_le (select (is_pending locked db.projected) db.events))
      (sort-All persisted_le (λ row. Memᴰ row db.events)
        (select (is_pending locked db.projected) db.events)
        (All-weaken (λ row. Memᴰ row db.events × (is_pending locked db.projected row ≡ true))
          (λ row. Memᴰ row db.events) (select (is_pending locked db.projected) db.events)
          (λ row h. h.0)
          (All-select (λ row. Memᴰ row db.events) (is_pending locked db.projected) db.events
            (All-Members db.events))))

-- The journal's row under the id of a row of the batch.
batch-row :
    (batch : List EdrRow) (db : EdrDatabase) (id : String)
    → All (λ row. Memᴰ row db.events) batch
    → contains id (map (λ (row : EdrRow). row.event_id) batch) ≡ true
    → (b : EdrRow) × Memᴰ b batch × Memᴰ b db.events × (id ≡ b.event_id)
batch-row batch db id inside h =
    let (b, m, e) = contains-Mem (λ (row : EdrRow). row.event_id) id batch h in
    (b, m, All-Mem (λ row. Memᴰ row db.events) batch b inside m, e)

-- A job that awaited a round still awaits one, or its row is current now.
awaited-settled :
    (batch : List EdrRow) (db next : EdrDatabase) (job_id : String)
    → IsConsistent db
    → All (λ row. Memᴰ row db.events) batch
    → Projects batch db next
    → Awaits db job_id
    → Awaits next job_id ⊎ Current next job_id
awaited-settled batch db next job_id c inside p (w, m, same, waits) =
    elim (Bool-cases (is_some (lookup w.event_id next.projected))) [
      | inr still ↦ inl (w, subst (λ rows. Memᴰ w rows) (sym p.keeps.same_events) m, same, still)
      | inl marked ↦
          let (b, mb, inside_b, e) =
            batch-row batch db w.event_id inside
              (ground (arith, p.marked w.event_id, marked, waits)) in
          let is_b : w ≡ b =
            Distinct-injective (λ (row : EdrRow). row.event_id) db.events w b c.distinct m inside_b
              e in
          inr (
            subst (λ id. Current next id) (sym (ap (λ (x : EdrRow). x.job_id) is_b) ∙ same)
              (All-Mem (λ row. Current next row.job_id) batch b p.brought mb))
    ]

Projects-IsConsistent :
    (batch : List EdrRow) (db next : EdrDatabase)
    → IsConsistent db
    → All (λ row. Memᴰ row db.events) batch
    → Projects batch db next
    → IsConsistent next
Projects-IsConsistent batch db next c inside p =
    let back : (rows : List EdrRow) → List String =
      λ rows. map (λ (row : EdrRow). row.event_id) rows in
    record {
      distinct = subst (λ rows. Distinct (back rows)) (sym p.keeps.same_events) c.distinct;
      known = λ id h.
          ap (λ rows. contains id (back rows)) p.keeps.same_events
          ∙ elim (Bool-cases (contains id (back batch))) [
            | inl here ↦
                let (b, mb, inside_b, e) = batch-row batch db id inside here in
                subst (λ k. contains k (ids_of db) ≡ true) (sym e)
                  (Mem-contains (λ (row : EdrRow). row.event_id) db.events b inside_b)
            | inr other ↦ c.known id (ground (arith, p.marked id, h, other))
          ];
      settled = λ row m.
          elim (c.settled row (subst (λ rows. Memᴰ row rows) p.keeps.same_events m)) [
            | inl awaits ↦ awaited-settled batch db next row.job_id c inside p awaits
            | inr current ↦ inr (p.keeps.current row.job_id current)
          ];
    }

run_round-IsConsistent :
    (locked : EdrRow → Bool) (batch_size : ℕ) (fault : Checkpoint → EdrRow → Bool)
    (hook_raises : List EdrRow → Bool) (db : EdrDatabase)
    → IsConsistent db
    → IsConsistent (run_round locked batch_size fault hook_raises db).0
run_round-IsConsistent locked batch_size fault hook_raises db c =
    elim (run_round-cases locked batch_size fault hook_raises db) [
      | inl (answered, p) ↦
          Projects-IsConsistent (pending_rows locked batch_size db) db
            (run_round locked batch_size fault hook_raises db).0 c
            (pending_rows-Mem locked batch_size db) p
      | inr (failure, answered, same) ↦ subst IsConsistent (sym same) c
    ]

pub Reaches-IsConsistent : (db : EdrDatabase) → Reaches db → IsConsistent db
Reaches-IsConsistent db begins = record {
  distinct = tt;
  known = λ id h. absurd (unfold lookup in ground (arith, h));
  settled = λ row m. absurd (Memᴰ.not-nil m);
}
Reaches-IsConsistent db (arrives {db = before} r row fresh) =
    arrive-IsConsistent before row fresh (Reaches-IsConsistent before r)
Reaches-IsConsistent db (projects {db = before} r locked batch_size fault hook_raises) =
    run_round-IsConsistent locked batch_size fault hook_raises before
      (Reaches-IsConsistent before r)
Reaches-IsConsistent db (rebuilds {db = before} r) =
    rebuild-IsConsistent before (Reaches-IsConsistent before r)

-- In every database that the writers can reach when rounds and rebuilds run one at a time, with rows
-- arriving between them: a job of the journal has an event that is not projected yet, or its row is
-- what its journal gives.
pub Reaches-settled :
    (db : EdrDatabase) (row : EdrRow)
    → Reaches db
    → Memᴰ row db.events
    → Awaits db row.job_id ⊎ Current db row.job_id
Reaches-settled db row r m = (Reaches-IsConsistent db r).settled row m

-- Once every event of a job is projected, a reader gets what the job's journal gives.
pub read_job-projection :
    (db : EdrDatabase) (row : EdrRow)
    → Reaches db
    → Memᴰ row db.events
    → All (λ r. r.job_id ≡ row.job_id → is_some (lookup r.event_id db.projected) ≡ true) db.events
    → (p : JobVisibility × VisibilityRow) × (projection_of db.events row.job_id ≡ ok p)
      × (read_job false db row.job_id ≡ ok p.1.projection)
unfolding read_job
read_job-projection db row r m settled = elim ((Reaches-IsConsistent db r).settled row m) [
  | inl (w, mw, same, waits) ↦
      let projected =
        All-Mem (λ r. r.job_id ≡ row.job_id → is_some (lookup r.event_id db.projected) ≡ true)
          db.events w settled mw same in
      absurd (ground (arith, waits, projected))
  | inr (p, e, found) ↦ (p, e, rw found)
]

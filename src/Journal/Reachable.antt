-- ===== src/Journal/Reachable.antt =====
-- The EDR database as its writers leave it: rows that the sink adds, rounds of the projection worker,
-- and rebuilds (src/job_visibility/edr_store/projection_worker.py). The sink is not part of the source;
-- `event_id` is the key of its table.
use mathlib.Core.List.{Memᴰ}
use mathlib.Core.List.Memᴰ
use job_scheduling_simulatio.Prelude.{
  ℕ, String, ◌≡◌, refl, ap, ◌∙◌, ◌⊎◌, inl, inr, Bool, true, false, List, [], ◌∷◌, ◌++◌, map, arith,
  Distinct, contains-append, sort, Bool-cases, is_some, ◌==◌, nat_key, text_key, same_refl, select,
  contains, lookup,
}
use job_scheduling_simulatio.Model.{code_key, default_config}
use job_scheduling_simulatio.Journal.Tables.{EdrRow, EdrDatabase}
use job_scheduling_simulatio.Journal.Projector.{
  persisted_le, replay, project_replayed, projection_of, run_round, rebuild,
}
use job_scheduling_simulatio.Journal.Current.{Current}
use job_scheduling_simulatio.Scheduler.Types.{Checkpoint}
use job_scheduling_simulatio.Engine.View.{found}
use job_scheduling_simulatio.Engine.Store.{new_engine}

abbrev pub empty_database : EdrDatabase
empty_database = record {
  events = [];
  projected = [];
  visibility = [];
  attempts = [];
  decisions = [];
  findings = [];
}

-- A row that the sink adds.
abbrev pub arrive : EdrRow → EdrDatabase → EdrDatabase
arrive row db = record db { events = db.events ++ row ∷ [] }

abbrev pub ids_of : EdrDatabase → List String
ids_of db = map (λ row. row.event_id) db.events

-- The databases that the writers can reach.
pub data Reaches : EdrDatabase → Type 0 where
  begins : Reaches empty_database
  arrives :
      {db : EdrDatabase}
      → Reaches db
      → (row : EdrRow) → contains row.event_id (ids_of db) ≡ false
      → Reaches (arrive row db)
  projects :
      {db : EdrDatabase}
      → Reaches db
      → (locked : EdrRow → Bool) (batch_size : ℕ) (fault : Checkpoint → EdrRow → Bool)
        (hook_raises : List EdrRow → Bool)
      → Reaches (run_round locked batch_size fault hook_raises db).0
  rebuilds : {db : EdrDatabase} → Reaches db → Reaches (rebuild db).0

-- One of the job's events is not projected yet.
abbrev pub Awaits : EdrDatabase → String → Type 0
Awaits db job_id =
    (row : EdrRow) × Memᴰ row db.events
    × (row.job_id ≡ job_id)
    × (is_some (lookup row.event_id db.projected) ≡ false)

pub record IsConsistent (db : EdrDatabase) : Type 0 where
  pub distinct : Distinct (ids_of db)
  pub known :
      (id : String) → is_some (lookup id db.projected) ≡ true → contains id (ids_of db) ≡ true
  pub settled : (row : EdrRow) → Memᴰ row db.events → Awaits db row.job_id ⊎ Current db row.job_id

Distinct-snoc :
    (row : EdrRow) (rows : List EdrRow)
    → Distinct (map (λ r. r.event_id) rows)
    → contains row.event_id (map (λ r. r.event_id) rows) ≡ false
    → Distinct (map (λ r. r.event_id) (rows ++ row ∷ []))
Distinct-snoc row [] d fresh = (refl, tt)
Distinct-snoc row (r ∷ rows) d fresh = (
  contains-append (λ (x : EdrRow). x.event_id) r.event_id rows (row ∷ [])
      ∙ ground (
        arith,
        d.0,
        fresh,
        text_key.same_iff r.event_id row.event_id,
        text_key.same_iff row.event_id r.event_id,
      ),
  Distinct-snoc row rows d.1 (ground (arith, fresh)),
)

select-snoc :
    (p : EdrRow → Bool) (rows : List EdrRow) (row : EdrRow)
    → p row ≡ false
    → select p (rows ++ row ∷ []) ≡ select p rows
select-snoc p [] row h = rw h
select-snoc p (r ∷ rows) row h = rw (select-snoc p rows row h)

-- A row of another job changes no projection.
projection_of-arrive :
    (job_id : String) (row : EdrRow) (events : List EdrRow)
    → row.job_id == job_id ≡ false
    → projection_of (events ++ row ∷ []) job_id ≡ projection_of events job_id
unfolding projection_of
projection_of-arrive job_id row events other =
    ap
      (λ rows.
        project_replayed job_id (replay (new_engine default_config) (sort persisted_le rows)))
      (select-snoc (λ r. r.job_id == job_id) events row other)

pub arrive-IsConsistent :
    (db : EdrDatabase) (row : EdrRow)
    → contains row.event_id (ids_of db) ≡ false
    → IsConsistent db
    → IsConsistent (arrive row db)
arrive-IsConsistent db row fresh c = record {
  distinct = Distinct-snoc row db.events c.distinct fresh;
  known = λ id h.
      contains-append (λ (x : EdrRow). x.event_id) id db.events (row ∷ [])
      ∙ ground (arith, c.known id h);
  settled = λ r m. elim (Bool-cases (row.job_id == r.job_id)) [
    | inl same ↦ inl (
      row,
      Memᴰ.append_right db.events (Memᴰ.head refl),
      (text_key.same_iff row.job_id r.job_id).0 same,
      ground (arith, c.known row.event_id, fresh),
    )
    | inr other ↦ elim (Memᴰ.append_cases db.events m) [
      | inl old ↦ elim (c.settled r old) [
        | inl (w, mw, same, waits) ↦ inl (w, Memᴰ.append_left (row ∷ []) mw, same, waits)
        | inr (p, e, found) ↦ inr (p, projection_of-arrive r.job_id row db.events other ∙ e, found)
      ]
      | inr new ↦ absurd (
          ground (
            arith,
            other,
            same_refl row.job_id,
            ap (λ (x : EdrRow). x.job_id) (Memᴰ.eq_of_singleton new),
          ))
    ]
  ];
}

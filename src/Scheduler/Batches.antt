-- ===== src/Scheduler/Batches.antt =====
-- The transactions of src/job_visibility/scheduler/service.py that claim and recover: what they
-- select, what they write, and that they keep the invariant of the rows.
use mathlib.Core.Path.{subst}
use job_scheduling_simulatio.Prelude.{
  ℕ, String, ◌≡◌, refl, sym, inl, inr, Bool, true, false, Option, none, some, List, [], ◌∷◌, arith,
  sort-All, ltb, Bool-cases, Option-cases, nat_key, text_key, same_refl, select, All, All-select,
  All-take, Dict, lookup, insert, lookup-insert, Entries, insert-Entries, values, values-All,
}
use job_scheduling_simulatio.Model.{Time, code_key}
use job_scheduling_simulatio.Scheduler.Claims.{
  due_le, is_due, due_rows, claim_one, claim_rows, claim_due, is_expired, expiry_le, expired_rows,
  recover_rows, recover_expired_claims,
}
use job_scheduling_simulatio.Scheduler.Tables.{release_row, recover_row}
use job_scheduling_simulatio.Scheduler.Types.{
  ClaimedJob, is_claimable, JobRow, Database, SchedulerService,
}
use job_scheduling_simulatio.Scheduler.Fencing.{holds, unheld_row}
use job_scheduling_simulatio.Scheduler.Rows.{IsRow, RowsValid, claim_row-IsRow, recover_row-IsRow}

-- A row that may be claimed.
abbrev Claimable : JobRow → Type 0
Claimable row = IsRow row.job_id row × (is_claimable row.status ≡ true)

is_due-claimable :
    (locked : JobRow → Bool) (now : Time) (row : JobRow)
    → is_due locked now row ≡ true
    → is_claimable row.status ≡ true
is_due-claimable locked now row h = ground arith

rows_stand_under_their_ids :
    (db : Database) → RowsValid db → All (λ row. IsRow row.job_id row) (values db.jobs)
rows_stand_under_their_ids db v =
    values-All IsRow (λ row. IsRow row.job_id row) db.jobs
      (λ id row r. subst (λ x. IsRow x row) (sym r.keyed) r) v

All-weaken :
    {P Q : JobRow → Type 0} (rows : List JobRow)
    → ((row : JobRow) → P row → Q row)
    → All P rows
    → All Q rows
All-weaken [] f h = tt
All-weaken (row ∷ rows) f h = (f row h.0, All-weaken rows f h.1)

due_rows-valid :
    (locked : JobRow → Bool) (now : Time) (limit : ℕ) (db : Database)
    → RowsValid db
    → All Claimable (due_rows locked now limit db.jobs)
unfolding due_rows
due_rows-valid locked now limit db v =
    All-weaken (due_rows locked now limit db.jobs)
      (λ row d. (d.0, is_due-claimable locked now row d.1))
      (All-take _ limit _ (
        sort-All due_le _ _ (
          All-select (λ row. IsRow row.job_id row) (is_due locked now) (values db.jobs)
            (rows_stand_under_their_ids db v))))

claim_rows-RowsValid :
    (service : SchedulerService) (owner : String) (now : Time) (rows : List JobRow) (db : Database)
    → All Claimable rows
    → RowsValid db
    → RowsValid (claim_rows service owner now rows db).0
unfolding claim_rows
claim_rows-RowsValid service owner now [] db c v = v
claim_rows-RowsValid service owner now (row ∷ rest) db c v =
    claim_rows-RowsValid service owner now rest (claim_one service owner now row db).0 c.1 (
      insert-Entries IsRow row.job_id _ db.jobs
        (claim_row-IsRow service.claim_lease_seconds owner (service.uuid db.drawn) now row.job_id
          row c.0.1 c.0.0)
        v)

pub claim_due-RowsValid :
    (service : SchedulerService) (locked : JobRow → Bool) (owner : String) (limit : ℕ) (now : Time)
    (db : Database)
    → RowsValid db
    → RowsValid (claim_due service locked owner limit now db).0
unfolding claim_due
claim_due-RowsValid service locked owner limit now db v = elim (Bool-cases (ltb limit 1)) [
  | inl none_wanted ↦ rw none_wanted v
  | inr some_wanted ↦ rw some_wanted (
      claim_rows-RowsValid service owner now (due_rows locked now limit db.jobs) db
        (due_rows-valid locked now limit db v) v)
]

recover_rows-RowsValid :
    (now : Time) (rows : List JobRow) (jobs : Dict String JobRow)
    → All (λ row. IsRow row.job_id row) rows
    → Entries IsRow jobs
    → Entries IsRow (recover_rows now rows jobs)
unfolding recover_rows
recover_rows-RowsValid now [] jobs r v = v
recover_rows-RowsValid now (row ∷ rest) jobs r v =
    recover_rows-RowsValid now rest (insert row.job_id (recover_row now row) jobs) r.1
      (insert-Entries IsRow row.job_id _ jobs (recover_row-IsRow now row.job_id row r.0) v)

expired_rows-valid :
    (locked : JobRow → Bool) (now : Time) (limit : ℕ) (db : Database)
    → RowsValid db
    → All (λ row. IsRow row.job_id row) (expired_rows locked now limit db.jobs)
unfolding expired_rows
expired_rows-valid locked now limit db v = All-take _ limit _ (
    sort-All expiry_le _ _ (
      All-weaken (select (is_expired locked now) (values db.jobs)) (λ row d. d.0)
        (All-select (λ row. IsRow row.job_id row) (is_expired locked now) (values db.jobs)
          (rows_stand_under_their_ids db v))))

pub recover_expired_claims-RowsValid :
    (locked : JobRow → Bool) (limit : ℕ) (now : Time) (db : Database)
    → RowsValid db
    → RowsValid (recover_expired_claims locked limit now db).0
unfolding recover_expired_claims
recover_expired_claims-RowsValid locked limit now db v =
    recover_rows-RowsValid now (expired_rows locked now limit db.jobs) db.jobs
      (expired_rows-valid locked now limit db v) v

-- The token under which the job of this id is held.
abbrev token_of : Option JobRow → Option String
token_of none = none
token_of (some row) = row.claim_token

abbrev Void : String → Dict String JobRow → Type 0
Void id jobs = token_of (lookup id jobs) ≡ none

insert-Void :
    (id : String) (row : JobRow) (jobs : Dict String JobRow) (now : Time)
    → (text_key.same row.job_id id ≡ false → Void id jobs)
    → Void id (insert row.job_id (recover_row now row) jobs)
insert-Void id row jobs now v = elim (Bool-cases (text_key.same row.job_id id)) [
  | inl e ↦
      rw (lookup-insert row.job_id id (recover_row now row) jobs, e)
        (unfold recover_row release_row in refl)
  | inr e ↦ rw (lookup-insert row.job_id id (recover_row now row) jobs, e) (v e)
]

recover_rows-Void :
    (id : String) (now : Time) (rows : List JobRow) (jobs : Dict String JobRow)
    → Void id jobs
    → Void id (recover_rows now rows jobs)
unfolding recover_rows
recover_rows-Void id now [] jobs v = v
recover_rows-Void id now (row ∷ rest) jobs v =
    recover_rows-Void id now rest _ (insert-Void id row jobs now (λ e. v))

recover_rows-All-Void :
    (now : Time) (rows : List JobRow) (jobs : Dict String JobRow)
    → All (λ row. Void row.job_id (recover_rows now rows jobs)) rows
unfolding recover_rows
recover_rows-All-Void now [] jobs = tt
recover_rows-All-Void now (row ∷ rest) jobs = (
  recover_rows-Void row.job_id now rest _
      (insert-Void row.job_id row jobs now (λ e. cc (e, same_refl row.job_id))),
  recover_rows-All-Void now rest (insert row.job_id (recover_row now row) jobs),
)

Void-holds :
    (job : ClaimedJob) (later : Time) (db : Database)
    → Void job.job_id db.jobs
    → holds job later db ≡ false
Void-holds job later db v = elim (Option-cases (lookup job.job_id db.jobs)) [
  | inl e ↦ rw (e, holds)
  | inr (row, e) ↦ rw (e, holds) (unheld_row job later row (rw (e, token_of) at v))
]

-- After a recovery no claim on any of the recovered jobs is current, at any time; and the recovery
-- has written no event and no attempt.
pub recovery_voids_claims :
    (locked : JobRow → Bool) (limit : ℕ) (now : Time) (db : Database)
    → All
        (λ row.
          (job : ClaimedJob) (later : Time)
          → job.job_id ≡ row.job_id
          → holds job later (recover_expired_claims locked limit now db).0 ≡ false)
        (expired_rows locked now limit db.jobs)
      × ((recover_expired_claims locked limit now db).0.outbox ≡ db.outbox)
      × ((recover_expired_claims locked limit now db).0.attempts ≡ db.attempts)
unfolding recover_expired_claims
recovery_voids_claims locked limit now db = (
  All-weaken (expired_rows locked now limit db.jobs)
      (λ row v job later e.
        Void-holds job later (recover_expired_claims locked limit now db).0
          (subst (λ id. Void id (recover_expired_claims locked limit now db).0.jobs) (sym e) v))
      (recover_rows-All-Void now (expired_rows locked now limit db.jobs) db.jobs),
  refl,
  refl,
)

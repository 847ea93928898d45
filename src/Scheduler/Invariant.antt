-- ===== src/Scheduler/Invariant.antt =====
-- The invariant of `scheduler_jobs` under every transaction of
-- src/job_visibility/scheduler/service.py.
use mathlib.Core.Path.{subst}
use job_scheduling_simulatio.Prelude.{
  String, ◌≡◌, refl, sym, inl, inr, true, some, arith, Bool-cases, nat_key, text_key, lookup,
  insert, Entries, lookup-Entries, insert-Entries,
}
use job_scheduling_simulatio.Model.{Time, code_key}
use job_scheduling_simulatio.Scheduler.Service.{start, heartbeat, succeed, failed_status, fail}
use job_scheduling_simulatio.Scheduler.Tables.{succeed_row, is_current}
use job_scheduling_simulatio.Scheduler.Types.{
  ClaimedJob, JobStatus, is_held, JobRow, Database, SchedulerService, HandlerError,
}
use job_scheduling_simulatio.Scheduler.Fencing.{
  holds, holds-row, start-stale, heartbeat-stale, succeed-stale, fail-stale, start-jobs,
  heartbeat-jobs, succeed-jobs, failed_row, fail-jobs,
}
use job_scheduling_simulatio.Scheduler.Rows.{
  IsRow, RowsValid, is_current-held, start_row-IsRow, heartbeat_row-IsRow, release_row-IsRow,
}

insert-RowsValid :
    (id : String) (row : JobRow) (db next : Database)
    → next.jobs ≡ insert id row db.jobs
    → IsRow id row
    → RowsValid db
    → RowsValid next
insert-RowsValid id row db next e r v =
    subst (λ jobs. Entries IsRow jobs) (sym e) (insert-Entries IsRow id row db.jobs r v)

held-IsRow :
    (job : ClaimedJob) (now : Time) (db : Database) (row : JobRow)
    → RowsValid db
    → lookup job.job_id db.jobs ≡ some row
    → is_current job now row ≡ true
    → IsRow job.job_id row × (is_held row.status ≡ true)
held-IsRow job now db row v e c =
    let r = lookup-Entries IsRow job.job_id row db.jobs v e in
    (r, is_current-held job now job.job_id row r c)

pub start-RowsValid :
    (service : SchedulerService) (job : ClaimedJob) (now : Time) (db : Database)
    → RowsValid db
    → RowsValid (start service job now db).0
start-RowsValid service job now db v = elim (Bool-cases (holds job now db)) [
  | inl h ↦
      let (row, e, c) = holds-row job now db h in
      let (r, held) = held-IsRow job now db row v e c in
      insert-RowsValid job.job_id _ db (start service job now db).0
        (start-jobs service job now db row e c).0 (start_row-IsRow now job.job_id row held r) v
  | inr h ↦ rw (start-stale service job now db h) v
]

pub heartbeat-RowsValid :
    (service : SchedulerService) (job : ClaimedJob) (now : Time) (db : Database)
    → RowsValid db
    → RowsValid (heartbeat service job now db).0
heartbeat-RowsValid service job now db v = elim (Bool-cases (holds job now db)) [
  | inl h ↦
      let (row, e, c) = holds-row job now db h in
      let (r, held) = held-IsRow job now db row v e c in
      insert-RowsValid job.job_id _ db (heartbeat service job now db).0
        (heartbeat-jobs service job now db row e c).0
        (heartbeat_row-IsRow service.claim_lease_seconds now job.job_id row held r) v
  | inr h ↦ rw (heartbeat-stale service job now db h) v
]

pub succeed-RowsValid :
    (service : SchedulerService) (job : ClaimedJob) (summary : String) (now : Time) (db : Database)
    → RowsValid db
    → RowsValid (succeed service job summary now db).0
succeed-RowsValid service job summary now db v = elim (Bool-cases (holds job now db)) [
  | inl h ↦
      let (row, e, c) = holds-row job now db h in
      let (r, held) = held-IsRow job now db row v e c in
      insert-RowsValid job.job_id _ db (succeed service job summary now db).0
        (succeed-jobs service job summary now db row e c).0
        (unfold succeed_row in
          release_row-IsRow JobStatus.succeeded row.available_at now job.job_id row refl (λ q. cc)
            r)
        v
  | inr h ↦ rw (succeed-stale service job summary now db h) v
]

-- The claim carries the maximum of its row.
abbrev pub CarriesMaximum : ClaimedJob → Database → Type 0
CarriesMaximum job db =
    (row : JobRow) → lookup job.job_id db.jobs ≡ some row → job.max_attempts ≡ row.max_attempts

failed_row-IsRow :
    (service : SchedulerService) (job : ClaimedJob) (failure : HandlerError) (now completed : Time)
    (row : JobRow)
    → is_current job completed row ≡ true
    → job.max_attempts ≡ row.max_attempts
    → IsRow job.job_id row
    → IsRow job.job_id (failed_row service job failure now completed row)
failed_row-IsRow service job failure now completed row c m r =
    release_row-IsRow (failed_status job failure) _ completed job.job_id row (ground arith)
      (λ q. unfold is_current in ground arith) r

pub fail-RowsValid :
    (service : SchedulerService) (job : ClaimedJob) (failure : HandlerError) (now completed : Time)
    (db : Database)
    → CarriesMaximum job db
    → RowsValid db
    → RowsValid (fail service job failure now completed db).0
fail-RowsValid service job failure now completed db m v =
    elim (Bool-cases (holds job completed db)) [
      | inl h ↦
          let (row, e, c) = holds-row job completed db h in
          let (r, held) = held-IsRow job completed db row v e c in
          insert-RowsValid job.job_id _ db (fail service job failure now completed db).0
            (fail-jobs service job failure now completed db row e c).0
            (failed_row-IsRow service job failure now completed row c (m row e) r) v
      | inr h ↦ rw (fail-stale service job failure now completed db h) v
    ]

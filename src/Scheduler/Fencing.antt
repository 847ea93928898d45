-- ===== src/Scheduler/Fencing.antt =====
-- The fence of src/job_visibility/scheduler/service.py: what a stale claim can do, and what becomes
-- of a claim after its outcome is written.
use job_scheduling_simulatio.Prelude.{
  ◌+◌, String, ◌≡◌, refl, ap, ◌∙◌, inl, inr, Bool, true, false, none, some, arith, Option-cases,
  nat_key, text_key, lookup, insert, lookup-insert_self, ok, raised,
}
use job_scheduling_simulatio.Model.{Time, seconds, code_key}
use job_scheduling_simulatio.Scheduler.Service.{
  start, heartbeat, succeed, failed_status, add_failure_events, available_after, fail,
}
use job_scheduling_simulatio.Scheduler.Tables.{
  start_row, heartbeat_row, release_row, succeed_row, is_current, fence, fenced_update,
}
use job_scheduling_simulatio.Scheduler.Types.{
  ClaimedJob, JobRow, Database, SchedulerService, HandlerError, stale_claim,
}

-- The claim is the one that the row of its job holds, and its lease has not ended.
abbrev pub holds : ClaimedJob → Time → Database → Bool
holds job now db = elim (lookup job.job_id db.jobs) [
  | none ↦ false
  | some row ↦ is_current job now row
]

fenced_update-stale :
    (job : ClaimedJob) (now : Time) (assign : JobRow → JobRow) (db : Database)
    → holds job now db ≡ false
    → fenced_update job now assign db ≡ raised (stale_claim job.job_id)
unfolding fenced_update
fenced_update-stale job now assign db h = ground arith

pub holds-row :
    (job : ClaimedJob) (now : Time) (db : Database)
    → holds job now db ≡ true
    → (row : JobRow) × (lookup job.job_id db.jobs ≡ some row) × (is_current job now row ≡ true)
holds-row job now db h = elim (Option-cases (lookup job.job_id db.jobs)) [
  | inl e ↦ cc (rw (e, holds) at h)
  | inr (row, e) ↦ (row, e, rw (e, holds) at h)
]

pub fenced_update-ok :
    (job : ClaimedJob) (now : Time) (assign : JobRow → JobRow) (db : Database) (row : JobRow)
    → lookup job.job_id db.jobs ≡ some row
    → is_current job now row ≡ true
    → fenced_update job now assign db
      ≡ ok (record db { jobs = insert job.job_id (assign row) db.jobs })
unfolding fenced_update fence
fenced_update-ok job now assign db row e h = rw (e, fence) (rw h)

pub start-stale :
    (service : SchedulerService) (job : ClaimedJob) (now : Time) (db : Database)
    → holds job now db ≡ false
    → start service job now db ≡ (db, raised (stale_claim job.job_id))
unfolding start
start-stale service job now db h = rw (fenced_update-stale job now (start_row now) db h)

pub heartbeat-stale :
    (service : SchedulerService) (job : ClaimedJob) (now : Time) (db : Database)
    → holds job now db ≡ false
    → heartbeat service job now db ≡ (db, raised (stale_claim job.job_id))
unfolding heartbeat
heartbeat-stale service job now db h =
    rw (fenced_update-stale job now (heartbeat_row service.claim_lease_seconds now) db h)

pub succeed-stale :
    (service : SchedulerService) (job : ClaimedJob) (summary : String) (now : Time) (db : Database)
    → holds job now db ≡ false
    → succeed service job summary now db ≡ (db, raised (stale_claim job.job_id))
unfolding succeed
succeed-stale service job summary now db h = rw (fenced_update-stale job now (succeed_row now) db h)

pub fail-stale :
    (service : SchedulerService) (job : ClaimedJob) (failure : HandlerError) (now completed : Time)
    (db : Database)
    → holds job completed db ≡ false
    → fail service job failure now completed db ≡ (db, raised (stale_claim job.job_id))
unfolding fail
fail-stale service job failure now completed db h = rw (fenced_update-stale job completed _ db h)

-- Whatever a worker tries under a claim that it no longer holds, it raises StaleClaimError and the
-- database stays as it was.
pub stale_changes_nothing :
    (service : SchedulerService) (job : ClaimedJob) (summary : String) (failure : HandlerError)
    (now completed : Time) (db : Database)
    → holds job now db ≡ false
    → holds job completed db ≡ false
    → (start service job now db ≡ (db, raised (stale_claim job.job_id)))
      × (heartbeat service job now db ≡ (db, raised (stale_claim job.job_id)))
      × (succeed service job summary now db ≡ (db, raised (stale_claim job.job_id)))
      × (fail service job failure now completed db ≡ (db, raised (stale_claim job.job_id)))
stale_changes_nothing service job summary failure now completed db h k = (
  start-stale service job now db h,
  heartbeat-stale service job now db h,
  succeed-stale service job summary now db h,
  fail-stale service job failure now completed db k,
)

-- Under a current claim each transaction changes the row of the job as its assignments say, and
-- answers.
pub start-jobs :
    (service : SchedulerService) (job : ClaimedJob) (now : Time) (db : Database) (row : JobRow)
    → lookup job.job_id db.jobs ≡ some row
    → is_current job now row ≡ true
    → ((start service job now db).0.jobs ≡ insert job.job_id (start_row now row) db.jobs)
      × ((start service job now db).1 ≡ ok tt)
unfolding start
start-jobs service job now db row e h =
    rw (fenced_update-ok job now (start_row now) db row e h) (refl, refl)

pub heartbeat-jobs :
    (service : SchedulerService) (job : ClaimedJob) (now : Time) (db : Database) (row : JobRow)
    → lookup job.job_id db.jobs ≡ some row
    → is_current job now row ≡ true
    → ((heartbeat service job now db).0.jobs
        ≡ insert job.job_id (heartbeat_row service.claim_lease_seconds now row) db.jobs)
      × ((heartbeat service job now db).1 ≡ ok (now + seconds service.claim_lease_seconds))
unfolding heartbeat
heartbeat-jobs service job now db row e h =
    rw (fenced_update-ok job now (heartbeat_row service.claim_lease_seconds now) db row e h)
      (refl, refl)

pub succeed-jobs :
    (service : SchedulerService) (job : ClaimedJob) (summary : String) (now : Time) (db : Database)
    (row : JobRow)
    → lookup job.job_id db.jobs ≡ some row
    → is_current job now row ≡ true
    → ((succeed service job summary now db).0.jobs
        ≡ insert job.job_id (succeed_row now row) db.jobs)
      × ((succeed service job summary now db).1 ≡ ok tt)
unfolding succeed
succeed-jobs service job summary now db row e h =
    rw (fenced_update-ok job now (succeed_row now) db row e h) (refl, refl)

abbrev pub failed_row : SchedulerService → ClaimedJob → HandlerError → Time → Time → JobRow → JobRow
failed_row service job failure now completed =
    release_row (failed_status job failure) (available_after service job failure now) completed

pub fail-jobs :
    (service : SchedulerService) (job : ClaimedJob) (failure : HandlerError) (now completed : Time)
    (db : Database) (row : JobRow)
    → lookup job.job_id db.jobs ≡ some row
    → is_current job completed row ≡ true
    → ((fail service job failure now completed db).0.jobs
        ≡ insert job.job_id (failed_row service job failure now completed row) db.jobs)
      × ((fail service job failure now completed db).1 ≡ ok tt)
unfolding fail add_failure_events
fail-jobs service job failure now completed db row e h =
    rw (fenced_update-ok job completed (failed_row service job failure now completed) db row e h)
      (ground arith, refl)

-- Without a token no claim is current.
pub unheld_row :
    (job : ClaimedJob) (now : Time) (row : JobRow)
    → row.claim_token ≡ none
    → is_current job now row ≡ false
unfolding is_current
unheld_row job now row h = ground arith

unheld :
    (job : ClaimedJob) (now : Time) (row : JobRow) (db next : Database)
    → next.jobs ≡ insert job.job_id row db.jobs
    → row.claim_token ≡ none
    → holds job now next ≡ false
unheld job now row db next e h =
    let found : lookup job.job_id next.jobs ≡ some row =
      ap (lookup job.job_id) e ∙ lookup-insert_self job.job_id row db.jobs in
    rw (found, holds) (unheld_row job now row h)

-- The success of a current claim is committed, and in the database that it leaves the claim is not
-- current, whatever time the clock shows.
pub succeed_once :
    (service : SchedulerService) (job : ClaimedJob) (summary : String) (now later : Time)
    (db : Database)
    → holds job now db ≡ true
    → ((succeed service job summary now db).1 ≡ ok tt)
      × (holds job later (succeed service job summary now db).0 ≡ false)
succeed_once service job summary now later db h =
    let (row, e, c) = holds-row job now db h in
    let (jobs, done) = succeed-jobs service job summary now db row e c in
    (
      done,
      unheld job later (succeed_row now row) db (succeed service job summary now db).0 jobs
          (unfold succeed_row in refl),
    )

-- The failure of a current claim, whether it is retried, exhausted or final, is committed, and in the
-- database that it leaves the claim is not current, whatever time the clock shows.
pub fail_once :
    (service : SchedulerService) (job : ClaimedJob) (failure : HandlerError)
    (now completed later : Time) (db : Database)
    → holds job completed db ≡ true
    → ((fail service job failure now completed db).1 ≡ ok tt)
      × (holds job later (fail service job failure now completed db).0 ≡ false)
fail_once service job failure now completed later db h =
    let (row, e, c) = holds-row job completed db h in
    let (jobs, done) = fail-jobs service job failure now completed db row e c in
    (
      done,
      unheld job later (failed_row service job failure now completed row) db
          (fail service job failure now completed db).0 jobs (unfold release_row in refl),
    )

-- ===== src/Scheduler/Rows.antt =====
-- What the statements of src/job_visibility/scheduler/service.py keep of every row of
-- `scheduler_jobs`.
use job_scheduling_simulatio.Prelude.{
  ℕ, ◌≤◌, ◌<◌, String, ◌≡◌, refl, sym, ◌∙◌, true, false, arith, is_some, nat_key, text_key, Entries,
}
use job_scheduling_simulatio.Model.{Time}
use job_scheduling_simulatio.Scheduler.Tables.{
  submitted_row, claim_row, start_row, heartbeat_row, release_row, recover_row, is_current,
}
use job_scheduling_simulatio.Scheduler.Types.{
  JobSubmission, ClaimedJob, JobStatus, is_claimable, is_held, JobRow, Database,
}

-- A row stands under its id, its attempts stay within their maximum with one to spare wherever it may
-- be claimed again, and it has an owner, a token and a lease exactly while it is held.
pub record IsRow (id : String) (row : JobRow) : Type 0 where
  pub keyed : row.job_id ≡ id
  pub within : row.attempt_number ≤ row.max_attempts
  pub spare : is_claimable row.status ≡ true → row.attempt_number < row.max_attempts
  pub attempted : is_held row.status ≡ true → 1 ≤ row.attempt_number
  pub token : is_some row.claim_token ≡ is_held row.status
  pub owner : is_some row.claimed_by ≡ is_held row.status
  pub lease : is_some row.claim_expires_at ≡ is_held row.status

abbrev pub RowsValid : Database → Type 0
RowsValid db = Entries IsRow db.jobs

pub submitted_row-IsRow :
    (value : JobSubmission) (now : Time)
    → 1 ≤ value.max_attempts
    → IsRow value.job_id (submitted_row value now)
unfolding submitted_row
submitted_row-IsRow value now h = ground arith

pub claim_row-IsRow :
    (lease : ℕ) (owner token : String) (now : Time) (id : String) (row : JobRow)
    → is_claimable row.status ≡ true
    → IsRow id row
    → IsRow id (claim_row lease owner token now row)
unfolding claim_row
claim_row-IsRow lease owner token now id row h v = record {
  keyed = v.keyed;
  within = omega (arith, v.spare h);
  spare = λ e. cc;
  attempted = λ e. omega arith;
  token = refl;
  owner = refl;
  lease = refl;
}

-- A row that passes the fence holds a token, so it is held.
pub is_current-held :
    (job : ClaimedJob) (now : Time) (id : String) (row : JobRow)
    → IsRow id row
    → is_current job now row ≡ true
    → is_held row.status ≡ true
unfolding is_current
is_current-held job now id row v h = ground (arith, v.token, h)

pub start_row-IsRow :
    (now : Time) (id : String) (row : JobRow)
    → is_held row.status ≡ true
    → IsRow id row
    → IsRow id (start_row now row)
unfolding start_row
start_row-IsRow now id row h v = record {
  keyed = v.keyed;
  within = v.within;
  spare = λ e. cc;
  attempted = λ e. v.attempted h;
  token = v.token ∙ h;
  owner = v.owner ∙ h;
  lease = v.lease ∙ h;
}

pub heartbeat_row-IsRow :
    (lease : ℕ) (now : Time) (id : String) (row : JobRow)
    → is_held row.status ≡ true
    → IsRow id row
    → IsRow id (heartbeat_row lease now row)
unfolding heartbeat_row
heartbeat_row-IsRow lease now id row h v = record {
  keyed = v.keyed;
  within = v.within;
  spare = v.spare;
  attempted = v.attempted;
  token = v.token;
  owner = v.owner;
  lease = sym h;
}

-- A released row is held no more, and may be claimed again only if an attempt is left.
pub release_row-IsRow :
    (status : JobStatus) (available now : Time) (id : String) (row : JobRow)
    → is_held status ≡ false
    → (is_claimable status ≡ true → row.attempt_number < row.max_attempts)
    → IsRow id row
    → IsRow id (release_row status available now row)
unfolding release_row
release_row-IsRow status available now id row h s v = record {
  keyed = v.keyed;
  within = v.within;
  spare = s;
  attempted = λ e. cc (h, e);
  token = sym h;
  owner = sym h;
  lease = sym h;
}

pub recover_row-IsRow :
    (now : Time) (id : String) (row : JobRow) → IsRow id row → IsRow id (recover_row now row)
unfolding recover_row
recover_row-IsRow now id row v =
    release_row-IsRow _ now now id row (ground arith) (λ e. ground arith) v

-- ===== src/Config/Accepted.antt =====
-- What holds of settings that were accepted (src/job_visibility/config.py), for the components that
-- src/job_visibility/runtime.py builds of them.
use mathlib.Core.Path.{subst}
use job_scheduling_simulatio.Prelude.{
  ℕ, ◌≤◌, String, ◌≡◌, refl, Bool, true, false, Option, none, some, arith, ◌==◌, nat_key, text_key,
  Dict, Result, ok-injective, ok, raised,
}
use job_scheduling_simulatio.Model.{Error}
use job_scheduling_simulatio.Config.Groups.{accept, SchedulerTuning, check_scheduler}
use job_scheduling_simulatio.Config.Environment.{
  configured, scheduler_group, scheduler_tuning_from_env,
}
use job_scheduling_simulatio.Config.Roles.{worker_of, scheduler_worker}
use job_scheduling_simulatio.Scheduler.Worker.{check_worker}
use job_scheduling_simulatio.Outbox.Leases.{lease}

configured-ok {ℓ} :
    {A : Type ℓ} (message : String) (r : Result Error A) (a : A)
    → configured message r ≡ ok a
    → r ≡ ok a
configured-ok message (ok b) a e = cc
configured-ok message (raised error) a e = cc

accept-ok {ℓ} :
    {A : Type ℓ} (fits accepted : Bool) (a b : A)
    → accept fits accepted a ≡ ok b
    → (fits ≡ true) × (accepted ≡ true) × (a ≡ b)
accept-ok true true a b e = (refl, refl, ok-injective (ok a) refl e)
accept-ok true false a b e = cc
accept-ok false accepted a b e = cc

check_scheduler-positive :
    (group tuning : SchedulerTuning)
    → check_scheduler group ≡ ok tuning
    → (1 ≤ tuning.batch_size)
      × (1 ≤ tuning.recovery_batch_size)
      × (1 ≤ tuning.poll_interval_seconds)
unfolding check_scheduler
check_scheduler-positive group tuning e =
    let (fits, accepted, same) = accept-ok _ true group tuning e in
    subst (λ t. (1 ≤ t.batch_size) × (1 ≤ t.recovery_batch_size) × (1 ≤ t.poll_interval_seconds))
      same (ground (arith, fits))

scheduler_group-positive :
    (a b c d : Option ℕ) (tuning : SchedulerTuning)
    → scheduler_group a b c d ≡ ok tuning
    → (1 ≤ tuning.batch_size)
      × (1 ≤ tuning.recovery_batch_size)
      × (1 ≤ tuning.poll_interval_seconds)
unfolding scheduler_group
scheduler_group-positive none b c d tuning e = cc
scheduler_group-positive (some n) none c d tuning e = cc
scheduler_group-positive (some n) (some lease) none d tuning e = cc
scheduler_group-positive (some n) (some lease) (some pause) none tuning e = cc
scheduler_group-positive (some n) (some lease) (some pause) (some limit) tuning e =
    check_scheduler-positive
      (record {
        batch_size = n;
        claim_lease_seconds = lease;
        poll_interval_seconds = pause;
        recovery_batch_size = limit;
      })
      tuning e

module _ (int_of float_of : String → Option ℕ) (values : Dict String String) where
  -- With an owner, the worker of settings that were read from an environment is built, and takes at
  -- least one job at a time.
  pub scheduler_worker-from_env :
      (owner : String) (tuning : SchedulerTuning)
      → owner == "" ≡ false
      → scheduler_tuning_from_env int_of float_of values ≡ ok tuning
      → (scheduler_worker owner tuning ≡ ok (worker_of owner tuning)) × (1 ≤ tuning.batch_size)
  unfolding scheduler_tuning_from_env scheduler_worker check_worker
  scheduler_worker-from_env owner tuning named e =
      let (batch, recovery, interval) =
        scheduler_group-positive _ _ _ _ tuning (configured-ok _ _ tuning e) in
      (ground (arith, named, batch, recovery, interval), batch)

-- ===== src/Health/Ready.antt =====
-- What a ready service tells of the queues (src/job_visibility/observability/health.py).
use job_scheduling_simulatio.Prelude.{
  ℕ, ◌+◌, ◌≤◌, min, String, ◌≡◌, refl, sym, ap, ◌∙◌, true, Option, none, some, List, [], ◌∷◌, ◌++◌,
  arith, All,
}
use job_scheduling_simulatio.Model.{Time, seconds}
use job_scheduling_simulatio.Journal.Tables.{EdrDatabase}
use job_scheduling_simulatio.Scheduler.Types.{Database}
use job_scheduling_simulatio.Health.Checks.{
  HealthService, Conditions, oldest_of, due_times, unpublished_times, unprojected_times, age_of,
  queue_check, Checks, scheduler_checks, edr_checks, connector_checks, dlq_checks, is_healthy,
  all_healthy, check,
}

-- Every time of a queue is at most the threshold before the clock.
abbrev pub Fresh : Time → ℕ → List Time → Type 0
Fresh now threshold times = All (λ t. now ≤ t + seconds threshold) times

-- No time is before the oldest one.
oldest_of-bound :
    (now bound : Time) (times : List Time)
    → age_of (oldest_of times) now ≤ bound
    → All (λ t. now ≤ t + bound) times
unfolding oldest_of
oldest_of-bound now bound [] h = tt
oldest_of-bound now bound (t ∷ ts) h = later (oldest_of ts) (oldest_of-bound now bound ts) h
  where
    later :
        (o : Option Time)
        → (age_of o now ≤ bound → All (λ t. now ≤ t + bound) ts)
        → age_of (some (elim o [ none ↦ t | some u ↦ min t u ])) now ≤ bound
        → (now ≤ t + bound) × All (λ t. now ≤ t + bound) ts
    later none f k = (omega (arith, k), f (omega arith))
    later (some u) f k = (omega (arith, k), f (omega (arith, k)))

queue_check-Fresh :
    (conditions : Conditions) (name : String) (times : List Time) (threshold : ℕ)
    → is_healthy (queue_check conditions name times threshold) ≡ true
    → Fresh (conditions.clock name) threshold times
unfolding queue_check
queue_check-Fresh conditions name times threshold h =
    oldest_of-bound (conditions.clock name) (seconds threshold) times (ground (arith, h))

all_healthy-append :
    (xs ys : Checks)
    → all_healthy (xs ++ ys) ≡ true
    → (all_healthy xs ≡ true) × (all_healthy ys ≡ true)
unfolding all_healthy
all_healthy-append [] ys h = (refl, h)
all_healthy-append ((name, value) ∷ xs) ys h =
    let r = all_healthy-append xs ys (ground (arith, h)) in (ground (arith, h, r.0), r.1)

scheduler_checks-Fresh :
    (service : HealthService) (conditions : Conditions) (db : Database)
    → all_healthy (scheduler_checks service conditions (some db)) ≡ true
    → Fresh
        (conditions.clock "dueJobs")
        service.oldest_due_seconds
        (due_times conditions.database_clock db)
      × Fresh (conditions.clock "outbox") service.oldest_outbox_seconds (unpublished_times db)
unfolding all_healthy scheduler_checks
scheduler_checks-Fresh service conditions db h = (
  queue_check-Fresh conditions "dueJobs" (due_times conditions.database_clock db)
      service.oldest_due_seconds (ground (arith, h)),
  queue_check-Fresh conditions "outbox" (unpublished_times db) service.oldest_outbox_seconds
      (ground (arith, h)),
)

edr_checks-Fresh :
    (service : HealthService) (conditions : Conditions) (db : EdrDatabase)
    → all_healthy (edr_checks service conditions (some db)) ≡ true
    → Fresh
        (conditions.clock "projection")
        service.oldest_unprojected_seconds
        (unprojected_times db)
unfolding all_healthy edr_checks
edr_checks-Fresh service conditions db h =
    queue_check-Fresh conditions "projection" (unprojected_times db)
      service.oldest_unprojected_seconds (ground (arith, h))

-- A service of both databases that is ready has no due job, no unpublished row of the outbox and no
-- unprojected event that has waited for longer than its threshold.
pub check-Fresh :
    (service : HealthService) (conditions : Conditions) (db : Database) (edr : EdrDatabase)
    → service.scheduler ≡ some db
    → service.edr ≡ some edr
    → (check service conditions).0 ≡ true
    → Fresh
        (conditions.clock "dueJobs")
        service.oldest_due_seconds
        (due_times conditions.database_clock db)
      × Fresh (conditions.clock "outbox") service.oldest_outbox_seconds (unpublished_times db)
      × Fresh
          (conditions.clock "projection")
          service.oldest_unprojected_seconds
          (unprojected_times edr)
unfolding check
check-Fresh service conditions db edr has_db has_edr h =
    let others =
      connector_checks service.connector_status
      ++ dlq_checks service.dlq_growth service.dlq_growth_limit in
    let (first, rest) =
      all_healthy-append (scheduler_checks service conditions service.scheduler)
        (edr_checks service conditions service.edr ++ others) h in
    let (second, third) =
      all_healthy-append (edr_checks service conditions service.edr) others rest in
    let (due, unpublished) =
      scheduler_checks-Fresh service conditions db
        (ap (λ o. all_healthy (scheduler_checks service conditions o)) (sym has_db) ∙ first) in
    (
      due,
      unpublished,
      edr_checks-Fresh service conditions edr
          (ap (λ o. all_healthy (edr_checks service conditions o)) (sym has_edr) ∙ second),
    )

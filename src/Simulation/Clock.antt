-- ===== src/Simulation/Clock.antt =====
-- `VirtualClock` of src/job_visibility/simulation.py; a step of it is not negative.
use job_scheduling_simulatio.Prelude.{ℕ, ◌+◌, ◌*◌, ltb, if◌then◌else◌, Result, ok, raised}
use job_scheduling_simulatio.Model.{Time, seconds, Error, value_error}

pub record VirtualClock : Type 0 where
  pub current : Time

-- `advance`.
unfoldable pub advance : VirtualClock → ℕ → ℕ → VirtualClock
advance clock in_seconds in_minutes = record {
  current = clock.current + seconds in_seconds + seconds (60 * in_minutes);
}

-- `set`: the clock after it, also where it raises.
unfoldable pub set_clock : VirtualClock → Time → VirtualClock × Result Error (Unit {0})
set_clock clock value =
    if ltb value clock.current
    then (clock, raised value_error)
    else (record { current = value }, ok tt)

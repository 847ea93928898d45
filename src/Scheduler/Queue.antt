-- ===== src/Scheduler/Queue.antt =====
-- Which jobs `claim_due` of src/job_visibility/scheduler/service.py selects, in what order.
use mathlib.Core.List.{Memᴰ}
use job_scheduling_simulatio.Prelude.{
  ℕ, ◌≤◌, String, ◌≡◌, refl, ◌⊎◌, inl, inr, Bool, true, false, arith, select-Mem, take-IsAscending,
  select-Members, sort-Mem, sort, sort-All, sort-IsAscending, length, select, All, All-take,
  length-take-le, All-weaken, Dict, values,
}
use job_scheduling_simulatio.Model.{Time}
use job_scheduling_simulatio.Scheduler.Claims.{due_le, is_due, due_rows}
use job_scheduling_simulatio.Scheduler.Types.{JobStatus, is_claimable, JobRow, pending, retry_wait}

-- What makes a row of the table one that the clock and the other transactions let be claimed.
pub record IsAvailable (locked : JobRow → Bool) (now : Time) (jobs : Dict String JobRow)
    (row : JobRow) : Type 0 where
  pub stored : Memᴰ row (values jobs)
  pub waiting : (row.status ≡ pending) ⊎ (row.status ≡ retry_wait)
  pub due : row.available_at ≤ now
  pub free : locked row ≡ false

is_claimable-cases :
    (status : JobStatus) → is_claimable status ≡ true → (status ≡ pending) ⊎ (status ≡ retry_wait)
is_claimable-cases status h = ground (arith, h)

is_due-IsAvailable :
    (locked : JobRow → Bool) (now : Time) (jobs : Dict String JobRow) (row : JobRow)
    → Memᴰ row (values jobs) × (is_due locked now row ≡ true)
    → IsAvailable locked now jobs row
is_due-IsAvailable locked now jobs row h = record {
  stored = h.0;
  waiting = is_claimable-cases row.status (ground (arith, h.1));
  due = ground (arith, h.1);
  free = ground (arith, h.1);
}

IsAvailable-is_due :
    (locked : JobRow → Bool) (now : Time) (jobs : Dict String JobRow) (row : JobRow)
    → IsAvailable locked now jobs row
    → is_due locked now row ≡ true
IsAvailable-is_due locked now jobs row h =
    let claimable : is_claimable row.status ≡ true = elim h.waiting [
      | inl e ↦ rw e refl
      | inr e ↦ rw e refl
    ] in
    ground (arith, claimable, h.due, h.free)

due_le-before : (a b : JobRow) → due_le a b ≡ true → a.available_at ≤ b.available_at
due_le-before a b h = ground (arith, h)

due_le-after : (a b : JobRow) → due_le a b ≡ false → b.available_at ≤ a.available_at
due_le-after a b h = ground (arith, h)

-- `claim_due` selects at most `limit` rows, each stored, PENDING or RETRY_WAIT, available by the clock
-- and locked by no other transaction; it passes over such a row only if it has selected `limit` of
-- them, none of which became available later.
pub due_rows-selection :
    (locked : JobRow → Bool) (now : Time) (limit : ℕ) (jobs : Dict String JobRow)
    → (length (due_rows locked now limit jobs) ≤ limit)
      × All (IsAvailable locked now jobs) (due_rows locked now limit jobs)
      × ((row : JobRow)
          → IsAvailable locked now jobs row
          → Memᴰ row (due_rows locked now limit jobs)
            ⊎ ((length (due_rows locked now limit jobs) ≡ limit)
                × All (λ r. r.available_at ≤ row.available_at) (due_rows locked now limit jobs)))
unfolding due_rows
due_rows-selection locked now limit jobs =
    let due = select (is_due locked now) (values jobs) in
    (
      length-take-le limit _,
      All-take _ limit _ (
          sort-All due_le _ _ (
            All-weaken _ (IsAvailable locked now jobs) due (is_due-IsAvailable locked now jobs)
              (select-Members (is_due locked now) (values jobs)))),
      λ row available.
          take-IsAscending (λ r. r.available_at) limit (sort due_le due) row
            (sort-IsAscending due_le (λ r. r.available_at) due_le-before due_le-after due)
            (sort-Mem due_le row due (
              select-Mem (is_due locked now) (values jobs) row available.stored
                (IsAvailable-is_due locked now jobs row available))),
    )

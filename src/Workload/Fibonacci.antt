-- ===== src/Workload/Fibonacci.antt =====
-- `fibonacci` of src/job_visibility/scheduler/handlers.py by fast doubling. A natural number is never
-- negative, which the source tests.
use Prim.Native.Nat.{◌%◌}
use job_scheduling_simulatio.Prelude.{
  ℕ, zero, suc, ◌+◌, ◌-◌, ◌*◌, ◌/◌, if◌then◌else◌, ◌==◌, nat_key, text_key,
}

-- `pair`, on fuel; the number itself is fuel enough.
unfoldable pub pair : ℕ → ℕ → ℕ × ℕ
pair zero value = (0, 1)
pair (suc fuel) value =
    let half = pair fuel (value / 2) in
    let low = half.0 * (2 * half.1 - half.0) in
    let high = half.0 * half.0 + half.1 * half.1 in
    if value == 0 then (0, 1) else if value % 2 == 0 then (low, high) else (high, low + high)

unfoldable pub fibonacci : ℕ → ℕ
unfolding pair
fibonacci number = (pair number number).0

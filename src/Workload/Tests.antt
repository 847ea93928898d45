-- ===== src/Workload/Tests.antt =====
-- Concrete runs of src/job_visibility/scheduler/handlers.py.
use job_scheduling_simulatio.Prelude.{ℕ, ◌+◌, ◌≡◌, refl, none, some, List, [], ◌∷◌, ok}
use job_scheduling_simulatio.Scheduler.Types.{ClaimedJob}
use job_scheduling_simulatio.Workload.Handlers.{fibonacci_values, fibonacci_handler, number, listed}
use job_scheduling_simulatio.Workload.Fibonacci.{fibonacci}
use job_scheduling_simulatio.Workload.Values.{IsList, fibonacci_values-IsList}
use job_scheduling_simulatio.Workload.Doubling.{fib, fibonacci-fib}

fibonacci_of_fifty : fibonacci 50 ≡ 12586269025
unfolding fibonacci
fibonacci_of_fifty = refl

values_up_to_ten :
    fibonacci_handler (record { limit = some (number 10); message = "" })
    ≡ ok (some (listed (0 ∷ 1 ∷ 1 ∷ 2 ∷ 3 ∷ 5 ∷ 8 ∷ []) (some 8)))
unfolding fibonacci_handler fibonacci
values_up_to_ten = refl

fibonacci-fib_example : fibonacci 20 ≡ fib 20
fibonacci-fib_example = fibonacci-fib 20

fibonacci_values-IsList_example :
    (values : List ℕ) × (fibonacci_values (7 + 3) 7 0 ≡ some values) × IsList 7 0 values
fibonacci_values-IsList_example = fibonacci_values-IsList 7

abbrev job : ClaimedJob
job = record {
  job_id = "job-1";
  correlation_id = "c";
  job_type = "PRINT";
  payload = some "{}";
  payload_reference = none;
  scheduled_at = 10;
  attempt_number = 1;
  max_attempts = 3;
  claimed_by = "worker-1";
  claim_token = "token-1";
  claim_expires_at = 20;
}

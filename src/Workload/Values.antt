-- ===== src/Workload/Values.antt =====
-- What the handlers of src/job_visibility/scheduler/handlers.py return.
use mathlib.Core.Path.{subst}
use job_scheduling_simulatio.Prelude.{
  ℕ, zero, suc, ◌+◌, ◌≤◌, ◌<◌, String, ◌≡◌, refl, ap, inl, inr, some, List, [], ◌∷◌, arith, ltb,
  if◌then◌else◌, Bool-cases, ◌==◌, nat_key, text_key, All, lookup-insert, values,
}
use job_scheduling_simulatio.Scheduler.Service.{start}
use job_scheduling_simulatio.Scheduler.Types.{ClaimedJob, HandlerOutcome}
use job_scheduling_simulatio.Workload.Handlers.{
  fibonacci_values, HandlerRegistry, register, dispatch,
}
use job_scheduling_simulatio.Workload.Fibonacci.{fibonacci}
use job_scheduling_simulatio.Workload.Doubling.{fib, fibonacci-fib}

-- The Fibonacci numbers from a place on.
abbrev pub fibs : ℕ → ℕ → List ℕ
fibs start zero = []
fibs start (suc n) = fib start ∷ fibs (suc start) n

fib_grows : (n : ℕ) → (n < fib (suc (suc n))) × (1 ≤ fib (suc n))
fib_grows zero = (omega arith, omega arith)
fib_grows (suc n) = let h = fib_grows n in (omega (arith, h.0, h.1), omega (arith, h.0))

-- All of them that are at most the limit, and the next one is beyond it.
abbrev pub IsList : ℕ → ℕ → List ℕ → Type 0
IsList limit start values =
    (n : ℕ) × (values ≡ fibs start n) × All (λ x. x ≤ limit) values × (limit < fib (start + n))

next_early : (limit index : ℕ) → fib index ≤ limit → suc index ≤ limit + 2
next_early limit zero small = omega arith
next_early limit (suc zero) small = omega arith
next_early limit (suc (suc index)) small = omega (arith, small, (fib_grows index).0)

shift : (a b : ℕ) → suc a + b ≡ a + suc b
shift a b = omega arith

values_from :
    (fuel limit index : ℕ)
    → limit + 3 ≤ fuel + index
    → index ≤ limit + 2
    → (values : List ℕ) × (fibonacci_values fuel limit index ≡ some values)
      × IsList limit index values
unfolding fibonacci_values
values_from zero limit index enough early = absurd (omega (arith, enough, early))
values_from (suc fuel) limit index enough early = elim (Bool-cases (ltb limit (fibonacci index))) [
  | inl e ↦ ([], rw e refl, (0, refl, tt, ground (arith, e, fibonacci-fib index)))
  | inr e ↦
      let small : fib index ≤ limit = ground (arith, e, fibonacci-fib index) in
      let (values, found, (n, same, bounds, beyond)) =
        values_from fuel limit (suc index) (omega (arith, enough)) (next_early limit index small) in
      (
        fib index ∷ values,
        rw (e, found, fibonacci-fib index) refl,
        (
          suc n,
          ap (λ xs. fib index ∷ xs) same,
          (small, bounds),
          subst (λ k. limit < fib k) (shift index n) beyond,
        ),
      )
]

-- For each limit the loop of the handler ends within its fuel, and lists the Fibonacci numbers from
-- the first on, without a gap, as far as the limit and no farther.
pub fibonacci_values-IsList :
    (limit : ℕ)
    → (values : List ℕ) × (fibonacci_values (limit + 3) limit 0 ≡ some values)
      × IsList limit 0 values
fibonacci_values-IsList limit = values_from (limit + 3) limit 0 (omega arith) (omega arith)

-- A handler that is registered under the type of a job is the one that is called; other types keep
-- theirs, and a type without one fails for good.
pub register-dispatch :
    (registry : HandlerRegistry) (job_type : String) (handler : ClaimedJob → HandlerOutcome)
    (job : ClaimedJob)
    → dispatch (register registry job_type handler) job
      ≡ (if job_type == job.job_type then handler job else dispatch registry job)
unfolding dispatch register
register-dispatch registry job_type handler job =
    rw (lookup-insert job_type job.job_type handler registry) (ground arith)

-- ===== src/Workload/Doubling.antt =====
-- The fast doubling of src/job_visibility/scheduler/handlers.py computes the Fibonacci numbers.
use Prim.Native.Nat.{◌%◌}
use native.Mathlib.Nat.{mul-add, add-mul, mul_comm, mul-sub}
use job_scheduling_simulatio.Prelude.{
  ℕ, zero, suc, ◌+◌, ◌-◌, ◌*◌, ◌/◌, ◌≤◌, ◌≡◌, refl, sym, ap, ◌⊎◌, inl, inr, true, false, arith,
  nat_eq_iff, Bool-cases, ◌==◌, nat_key, text_key,
}
use job_scheduling_simulatio.Workload.Fibonacci.{pair, fibonacci}

-- The Fibonacci numbers by their recursion.
abbrev pub fib : ℕ → ℕ
fib zero = 0
fib (suc zero) = 1
fib (suc (suc n)) = fib n + fib (suc n)

abbrev twice : ℕ → ℕ
twice zero = 0
twice (suc n) = suc (suc (twice n))

twice-add : (n : ℕ) → twice n ≡ n + n
twice-add zero = refl
twice-add (suc n) = omega (arith, twice-add n)

-- The next pair of doubled numbers: `a` and `b` are neighbours, `s` and `t` their doubled ones.
even_step :
    (a b s t : ℕ) → s + a * a ≡ 2 * (a * b) → t ≡ a * a + b * b → s + t + b * b ≡ 2 * (b * (a + b))
even_step a b s t e f = omega (arith, e, f, mul-add b a b, mul_comm b a)

odd_step :
    (a b s t : ℕ)
    → s + a * a ≡ 2 * (a * b)
    → t ≡ a * a + b * b
    → t + (s + t) ≡ b * b + (a + b) * (a + b)
odd_step a b s t e f =
    omega (arith, e, f, mul-add b a b, mul_comm b a, add-mul a b (a + b), mul-add a a b)

-- The doubled Fibonacci numbers by those of half their places.
fib-twice :
    (n : ℕ)
    → (fib (twice n) + fib n * fib n ≡ 2 * (fib n * fib (suc n)))
      × (fib (suc (twice n)) ≡ fib n * fib n + fib (suc n) * fib (suc n))
fib-twice zero = (refl, refl)
fib-twice (suc n) =
    let h = fib-twice n in
    (
      even_step (fib n) (fib (suc n)) (fib (twice n)) (fib (suc (twice n))) h.0 h.1,
      odd_step (fib n) (fib (suc n)) (fib (twice n)) (fib (suc (twice n))) h.0 h.1,
    )

-- `first * (2 * second - first)`, where the subtraction does not stop at zero.
fib-low : (n : ℕ) → fib n * (2 * fib (suc n) - fib n) ≡ fib (twice n)
fib-low n = omega (
  arith,
  mul-sub (fib n) (2 * fib (suc n)) (fib n),
  (fib-twice n).0,
  mul-add (fib n) (fib (suc n)) (fib (suc n)),
)

-- A number by its half, as the test of its last bit tells.
halves :
    (n : ℕ)
    → ((n % 2 == 0 ≡ true) × (n ≡ twice (n / 2)))
      ⊎ ((n % 2 == 0 ≡ false) × (n ≡ suc (twice (n / 2))))
halves n = elim (Bool-cases (n % 2 == 0)) [
  | inl e ↦ inl (e, omega (arith, (nat_eq_iff (n % 2) 0).0 e, twice-add (n / 2)))
  | inr e ↦ inr (e, ground (arith, nat_eq_iff (n % 2) 0, e, twice-add (n / 2)))
]

pair-fib : (fuel value : ℕ) → value ≤ fuel → pair fuel value ≡ (fib value, fib (suc value))
unfolding pair
pair-fib zero value h = let none_left : value ≡ 0 = omega (arith, h) in rw none_left
pair-fib (suc fuel) value h = elim (Bool-cases (value == 0)) [
  | inl e ↦ rw (e, (nat_eq_iff value 0).0 e)
  | inr e ↦
      let half = pair-fib fuel (value / 2) (ground (arith, e, h, nat_eq_iff value 0)) in
      elim (halves value) [
        | inl (even, same) ↦
            rw (e, even, half, fib-low (value / 2), sym (fib-twice (value / 2)).1)
              (ap (λ n. (fib n, fib (suc n))) (sym same))
        | inr (odd, same) ↦
            rw (e, odd, half, fib-low (value / 2), sym (fib-twice (value / 2)).1)
              (ap (λ n. (fib n, fib (suc n))) (sym same))
      ]
]

-- Fast doubling, with the number itself as its fuel, gives the Fibonacci number.
pub fibonacci-fib : (number : ℕ) → fibonacci number ≡ fib number
unfolding fibonacci
fibonacci-fib number = ap (λ p. p.0) (pair-fib number number (omega arith))

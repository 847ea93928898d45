-- ===== src/Prelude/Members.antt =====
-- Which keys the elements of a list have.
use Prim.Native.Nat.{ℕ, zero, suc}
use mathlib.Core.Path.{◌≡◌, refl}
use mathlib.Core.Bool.{Bool, true, false, ◌||◌}
use mathlib.Core.List.{List, [], ◌∷◌, ◌++◌, map}
use native.Mathlib.Omega.{arith}
use job_scheduling_simulatio.Prelude.Tests.{Key, same_refl}
use job_scheduling_simulatio.Prelude.Lists.{All, All-weaken, All-zip, contains, select, take}
use job_scheduling_simulatio.Prelude.Sorting.{place, sort}

-- No key twice.
abbrev pub Distinct {ℓ} : {K : Type ℓ} ⦃e : Key K⦄ → List K → Type 0
Distinct [] = Unit
Distinct (k ∷ ks) = (contains k ks ≡ false) × Distinct ks

module _ {ℓ κ} {A : Type ℓ} {K : Type κ} ⦃e : Key K⦄ (f : A → K) where
  pub contains-append :
      (k : K) (xs ys : List A)
      → contains k (map f (xs ++ ys)) ≡ contains k (map f xs) || contains k (map f ys)
  contains-append k [] ys = refl
  contains-append k (x ∷ xs) ys = ground (arith, contains-append k xs ys)

  pub contains-take :
      (k : K) (n : ℕ) (xs : List A)
      → contains k (map f (take n xs)) ≡ true
      → contains k (map f xs) ≡ true
  contains-take k zero xs h = ground arith
  contains-take k (suc n) [] h = ground arith
  contains-take k (suc n) (x ∷ xs) h = ground (arith, contains-take k n xs)

  pub contains-select :
      (k : K) (p : A → Bool) (xs : List A)
      → contains k (map f (select p xs)) ≡ true
      → contains k (map f xs) ≡ true
  contains-select k p [] h = h
  contains-select k p (x ∷ xs) h = ground (arith, contains-select k p xs)

  contains-place :
      (k : K) (le : A → A → Bool) (x : A) (ys : List A)
      → contains k (map f (place le x ys)) ≡ e.same k (f x) || contains k (map f ys)
  unfolding place
  contains-place k le x [] = refl
  contains-place k le x (y ∷ ys) = ground (arith, contains-place k le x ys)

  pub contains-sort :
      (k : K) (le : A → A → Bool) (xs : List A)
      → contains k (map f (sort le xs)) ≡ contains k (map f xs)
  unfolding sort
  contains-sort k le [] = refl
  contains-sort k le (x ∷ xs) = rw (contains-place k le x (sort le xs), contains-sort k le xs)

  pub contains-own : (xs : List A) → All (λ x. contains (f x) (map f xs) ≡ true) xs
  contains-own [] = tt
  contains-own (x ∷ xs) = (
    ground (arith, same_refl (f x)),
    All-weaken (λ y. contains (f y) (map f xs) ≡ true) (λ y. contains (f y) (map f (x ∷ xs)) ≡ true)
        xs (λ y h. ground arith) (contains-own xs),
  )

  -- With distinct keys the key of a selected element is that of no other.
  pub select-Distinct :
      (p : A → Bool) (xs : List A)
      → Distinct (map f xs)
      → All (λ x. contains (f x) (map f (select p xs)) ≡ true → p x ≡ true) xs
  select-Distinct p [] h = tt
  select-Distinct p (x ∷ xs) h = (
    λ found. ground (arith, h.0, found, contains-select (f x) p xs),
    All-weaken
        (λ y.
          (contains (f y) (map f xs) ≡ true)
          × (contains (f y) (map f (select p xs)) ≡ true → p y ≡ true))
        (λ y. contains (f y) (map f (select p (x ∷ xs))) ≡ true → p y ≡ true) xs
        (λ y k found. ground (arith, h.0, k.0, k.1, found, e.same_iff (f y) (f x)))
        (All-zip (λ y. contains (f y) (map f xs) ≡ true)
          (λ y. contains (f y) (map f (select p xs)) ≡ true → p y ≡ true) xs (contains-own xs)
          (select-Distinct p xs h.1)),
  )

-- ===== src/Prelude/Sorting.antt =====
-- `sorted(xs, key=…)`: a stable insertion sort by a Boolean order.
use Prim.Native.Nat.{ℕ, ◌≤◌}
use mathlib.Core.Path.{◌≡◌}
use mathlib.Core.Bool.{Bool, true, false}
use mathlib.Core.List.{List, [], ◌∷◌, Perm}
use mathlib.Core.List.Perm
use job_scheduling_simulatio.Prelude.Tests.{if◌then◌else◌, Bool-cases}
use job_scheduling_simulatio.Prelude.Lists.{All, All-weaken}
use mathlib.Core.Logic.{inl, inr}
use native.Mathlib.Omega.{arith}

-- Each element measures at most what all that follow it do.
abbrev pub IsAscending {ℓ} : {A : Type ℓ} → (A → ℕ) → List A → Type 0
IsAscending measure [] = Unit
IsAscending measure (x ∷ xs) = All (λ y. measure x ≤ measure y) xs × IsAscending measure xs

module _ {ℓ} {A : Type ℓ} (le : A → A → Bool) where
  unfoldable pub place : A → List A → List A
  place x [] = x ∷ []
  place x (y ∷ ys) = let rest = place x ys in if le x y then x ∷ y ∷ ys else y ∷ rest

  unfoldable pub sort : List A → List A
  unfolding place
  sort [] = []
  sort (x ∷ xs) = place x (sort xs)

  place-perm : (x : A) (ys : List A) → Perm (place x ys) (x ∷ ys)
  unfolding place
  place-perm x [] = Perm.refl (x ∷ [])
  place-perm x (y ∷ ys) = elim (Bool-cases (le x y)) [
    | inl e ↦ rw (e, place) (Perm.refl (x ∷ y ∷ ys))
    | inr e ↦ rw (e, place) (Perm.trans (Perm.cons y (place-perm x ys)) (Perm.swap x y ys))
  ]

  -- Sorting loses and invents nothing.
  pub sort-perm : (xs : List A) → Perm (sort xs) xs
  unfolding sort
  sort-perm [] = Perm.refl []
  sort-perm (x ∷ xs) = Perm.trans (place-perm x (sort xs)) (Perm.cons x (sort-perm xs))

  -- Each element is at most all that follow it.
  abbrev pub IsSorted : List A → Type ℓ
  IsSorted [] = Unit
  IsSorted (x ∷ xs) = All (λ y. le x y ≡ true) xs × IsSorted xs

  place-All {κ} : (P : A → Type κ) (x : A) (ys : List A) → P x → All P ys → All P (place x ys)
  unfolding place
  place-All P x [] h hs = (h, tt)
  place-All P x (y ∷ ys) h hs = elim (Bool-cases (le x y)) [
    | inl e ↦ rw (e, place) (h, hs)
    | inr e ↦ rw (e, place) (hs.0, place-All P x ys h hs.1)
  ]

  pub sort-All {κ} : (P : A → Type κ) (xs : List A) → All P xs → All P (sort xs)
  unfolding sort
  sort-All P [] h = tt
  sort-All P (x ∷ xs) h = place-All P x (sort xs) h.0 (sort-All P xs h.1)

  -- Sorted by an order that refines a measure, the measures ascend.
  module _ (measure : A → ℕ) (before : (x y : A) → le x y ≡ true → measure x ≤ measure y)
      (after : (x y : A) → le x y ≡ false → measure y ≤ measure x) where
    place-IsAscending :
        (x : A) (ys : List A) → IsAscending measure ys → IsAscending measure (place x ys)
    unfolding place
    place-IsAscending x [] h = (tt, tt)
    place-IsAscending x (y ∷ ys) h = elim (Bool-cases (le x y)) [
      | inl e ↦
          rw (e, place)
            (
              (
                before x y e,
                All-weaken (λ z. measure y ≤ measure z) (λ z. measure x ≤ measure z) ys
                    (λ z above. omega (arith, above, before x y e)) h.0,
              ),
              h,
            )
      | inr e ↦
          rw (e, place)
            (
              place-All (λ z. measure y ≤ measure z) x ys (after x y e) h.0,
              place-IsAscending x ys h.1,
            )
    ]

    pub sort-IsAscending : (xs : List A) → IsAscending measure (sort xs)
    unfolding sort
    sort-IsAscending [] = tt
    sort-IsAscending (x ∷ xs) = place-IsAscending x (sort xs) (sort-IsAscending xs)

-- ===== src/Prelude/Membership.antt =====
-- Membership of lists, and the elements of a list with distinct keys.
use Prim.Native.Nat.{ℕ, zero, suc, ◌≤◌, ◌<◌}
use mathlib.Core.Path.{◌≡◌, refl, sym, ap, ◌∙◌, subst}
use mathlib.Core.Logic.{◌≢◌, ◌⊎◌, inl, inr}
use mathlib.Core.Bool.{Bool, true, false}
use mathlib.Core.List.{List, [], ◌∷◌, map, Memᴰ}
use mathlib.Core.List.Memᴰ
use native.Mathlib.Omega.{arith}
use job_scheduling_simulatio.Prelude.Tests.{Key, Bool-cases, same_refl}
use job_scheduling_simulatio.Prelude.Lists.{
  length, All, All-select, All-weaken, contains, count, select, take,
}
use job_scheduling_simulatio.Prelude.Sorting.{IsAscending, place, sort}
use job_scheduling_simulatio.Prelude.Members.{Distinct}

module _ {ℓ} {A : Type ℓ} where
  pub All-Mem {κ} : (P : A → Type κ) (xs : List A) (x : A) → All P xs → Memᴰ x xs → P x
  All-Mem P [] x h m = absurd (Memᴰ.not-nil m)
  All-Mem P (y ∷ ys) x h m = elim (Memᴰ.cases_cons m) [
    | inl e ↦ subst P (sym e) h.0
    | inr below ↦ All-Mem P ys x h.1 below
  ]

  pub All-Members : (xs : List A) → All (λ x. Memᴰ x xs) xs
  All-Members [] = tt
  All-Members (x ∷ xs) = (
    Memᴰ.head refl,
    All-weaken (λ y. Memᴰ y xs) (λ y. Memᴰ y (x ∷ xs)) xs (λ y m. Memᴰ.tail m) (All-Members xs),
  )

  pub select-Mem :
      (p : A → Bool) (xs : List A) (x : A) → Memᴰ x xs → p x ≡ true → Memᴰ x (select p xs)
  select-Mem p [] x m kept = absurd (Memᴰ.not-nil m)
  select-Mem p (y ∷ ys) x m kept = elim (Memᴰ.cases_cons m) [
    | inl e ↦ rw (subst (λ z. p z ≡ true) e kept) (Memᴰ.head e)
    | inr below ↦ elim (Bool-cases (p y)) [
      | inl here ↦ rw here (Memᴰ.tail (select-Mem p ys x below kept))
      | inr other ↦ rw other (select-Mem p ys x below kept)
    ]
  ]

  -- What an ascending list has is in its prefix, or the prefix is full and measures no more.
  pub take-IsAscending :
      (measure : A → ℕ) (n : ℕ) (xs : List A) (x : A)
      → IsAscending measure xs
      → Memᴰ x xs
      → Memᴰ x (take n xs)
        ⊎ ((length (take n xs) ≡ n) × All (λ y. measure y ≤ measure x) (take n xs))
  take-IsAscending measure n [] x h m = absurd (Memᴰ.not-nil m)
  take-IsAscending measure zero (y ∷ ys) x h m = inr (refl, tt)
  take-IsAscending measure (suc n) (y ∷ ys) x h m = elim (Memᴰ.cases_cons m) [
    | inl e ↦ inl (Memᴰ.head e)
    | inr below ↦ elim (take-IsAscending measure n ys x h.1 below) [
      | inl kept ↦ inl (Memᴰ.tail kept)
      | inr cut ↦ inr (ap suc cut.0, (All-Mem (λ z. measure y ≤ measure z) ys x h.0 below, cut.1))
    ]
  ]

  pub select-Members :
      (p : A → Bool) (xs : List A) → All (λ x. Memᴰ x xs × (p x ≡ true)) (select p xs)
  select-Members p xs = All-select (λ x. Memᴰ x xs) p xs (All-Members xs)

  pub take-some : (n : ℕ) (xs : List A) → xs ≢ [] → (x : A) × Memᴰ x (take (suc n) xs)
  take-some n [] some_x = absurd (some_x refl)
  take-some n (x ∷ xs) some_x = (x, Memᴰ.head refl)

  pub count-some :
      (p : A → Bool) (xs : List A) → count p xs ≢ 0 → (x : A) × Memᴰ x xs × (p x ≡ true)
  count-some p [] some_x = absurd (some_x refl)
  count-some p (x ∷ xs) some_x = elim (Bool-cases (p x)) [
    | inl here ↦ (x, Memᴰ.head refl, here)
    | inr other ↦
        let (y, m, h) = count-some p xs (λ none. some_x (rw other none)) in (y, Memᴰ.tail m, h)
  ]

  pub count-none : (p : A → Bool) (xs : List A) → count p xs ≡ 0 → All (λ x. p x ≡ false) xs
  count-none p [] h = tt
  count-none p (x ∷ xs) h = (ground (arith, h), count-none p xs (ground (arith, h)))

  -- What passes a stronger test is not more, and less where one element is lost.
  pub count-weaken :
      (p q : A → Bool) (xs : List A) → ((x : A) → q x ≡ true → p x ≡ true) → count q xs ≤ count p xs
  count-weaken p q [] stronger = omega arith
  count-weaken p q (x ∷ xs) stronger = ground (arith, stronger x, count-weaken p q xs stronger)

  pub count-lost :
      (p q : A → Bool) (xs : List A) (x : A)
      → ((y : A) → q y ≡ true → p y ≡ true)
      → Memᴰ x xs
      → p x ≡ true
      → q x ≡ false
      → count q xs < count p xs
  count-lost p q [] x stronger m had lost = absurd (Memᴰ.not-nil m)
  count-lost p q (y ∷ ys) x stronger m had lost = elim (Memᴰ.cases_cons m) [
    | inl e ↦
        let had_y : p y ≡ true = subst (λ z. p z ≡ true) e had in
        let lost_y : q y ≡ false = subst (λ z. q z ≡ false) e lost in
        ground (arith, had_y, lost_y, count-weaken p q ys stronger)
    | inr below ↦ ground (arith, stronger y, count-lost p q ys x stronger below had lost)
  ]

module _ {ℓ} {A : Type ℓ} (le : A → A → Bool) where
  place-Mem : (x y : A) (ys : List A) → Memᴰ x (y ∷ ys) → Memᴰ x (place le y ys)
  unfolding place
  place-Mem x y [] m = m
  place-Mem x y (z ∷ zs) m = elim (Bool-cases (le y z)) [
    | inl before ↦ rw (before, place) m
    | inr after ↦
        rw (after, place)
          (elim (Memᴰ.cases_cons m) [
            | inl e ↦ Memᴰ.tail (place-Mem x y zs (Memᴰ.head e))
            | inr below ↦ elim (Memᴰ.cases_cons below) [
              | inl e ↦ Memᴰ.head e
              | inr deep ↦ Memᴰ.tail (place-Mem x y zs (Memᴰ.tail deep))
            ]
          ])
  ]

  pub sort-Mem : (x : A) (xs : List A) → Memᴰ x xs → Memᴰ x (sort le xs)
  unfolding sort
  sort-Mem x [] m = m
  sort-Mem x (y ∷ ys) m = place-Mem x y (sort le ys) (elim (Memᴰ.cases_cons m) [
    | inl e ↦ Memᴰ.head e
    | inr below ↦ Memᴰ.tail (sort-Mem x ys below)
  ])

module _ {ℓ κ} {A : Type ℓ} {K : Type κ} ⦃e : Key K⦄ (f : A → K) where
  pub Mem-contains : (xs : List A) (x : A) → Memᴰ x xs → contains (f x) (map f xs) ≡ true
  Mem-contains [] x m = absurd (Memᴰ.not-nil m)
  Mem-contains (y ∷ ys) x m = elim (Memᴰ.cases_cons m) [
    | inl same ↦
        subst (λ z. contains (f x) (f z ∷ map f ys) ≡ true) same (ground (arith, same_refl (f x)))
    | inr below ↦ ground (arith, Mem-contains ys x below)
  ]

  pub contains-Mem :
      (k : K) (xs : List A) → contains k (map f xs) ≡ true → (x : A) × Memᴰ x xs × (k ≡ f x)
  contains-Mem k [] h = absurd (ground (arith, h))
  contains-Mem k (x ∷ xs) h = elim (Bool-cases (e.same k (f x))) [
    | inl here ↦ (x, Memᴰ.head refl, (e.same_iff k (f x)).0 here)
    | inr other ↦
        let (y, m, same) = contains-Mem k xs (ground (arith, h, other)) in (y, Memᴰ.tail m, same)
  ]

  -- With distinct keys an element is the only one with its key.
  pub Distinct-injective :
      (xs : List A) (x y : A) → Distinct (map f xs) → Memᴰ x xs → Memᴰ y xs → f x ≡ f y → x ≡ y
  Distinct-injective [] x y d mx my same = absurd (Memᴰ.not-nil mx)
  Distinct-injective (z ∷ zs) x y d mx my same = elim (Memᴰ.cases_cons mx) [
    | inl ex ↦ elim (Memᴰ.cases_cons my) [
      | inl ey ↦ ex ∙ sym ey
      | inr by ↦ absurd (clash (subst (λ v. f v ≡ f y) ex same) by)
    ]
    | inr bx ↦ elim (Memᴰ.cases_cons my) [
      | inl ey ↦ absurd (clash (sym (subst (λ v. f x ≡ f v) ey same)) bx)
      | inr by ↦ Distinct-injective zs x y d.1 bx by same
    ]
  ]
    where
      clash : {v : A} → f z ≡ f v → Memᴰ v zs → ⊥
      clash {v} e m =
          let h : contains (f z) (map f zs) ≡ true =
            subst (λ k. contains k (map f zs) ≡ true) (sym e) (Mem-contains zs v m) in
          ground (arith, h, d.0)

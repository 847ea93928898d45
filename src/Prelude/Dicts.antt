-- ===== src/Prelude/Dicts.antt =====
-- Python's dict: an association list in insertion order, each key once.
use mathlib.Core.Option
use mathlib.Core.Path.{◌≡◌, refl, sym, ap, subst, subst₂}
use mathlib.Core.Logic.{inl, inr}
use mathlib.Core.Bool.{false}
use mathlib.Core.Option.{Option, none, some, some-injective}
use mathlib.Core.List.{List, [], ◌∷◌, map}
use native.Mathlib.Omega.{arith}
use job_scheduling_simulatio.Prelude.Tests.{Key, nat_key, if◌then◌else◌, same_refl, Bool-cases}
use job_scheduling_simulatio.Prelude.Lists.{All}

abbrev pub Dict {ℓ κ} : Type ℓ → Type κ → Type (ℓ ⊔ κ)
Dict K V = List (K × V)

module _ {ℓ κ} {K : Type ℓ} {V : Type κ} ⦃e : Key K⦄ where
  -- `d.get(k)`.
  unfoldable pub lookup : K → Dict K V → Option V
  lookup k [] = none
  lookup k ((j, v) ∷ d) = if e.same j k then some v else lookup k d

  -- `d[k] = v`: an old key keeps its place, a new one goes to the end.
  unfoldable pub insert : K → V → Dict K V → Dict K V
  insert k v [] = (k, v) ∷ []
  insert k v ((j, w) ∷ d) = if e.same j k then (j, v) ∷ d else (j, w) ∷ insert k v d

  pub lookup-insert :
      (k j : K) (v : V) (d : Dict K V)
      → lookup j (insert k v d) ≡ (if e.same k j then some v else lookup j d)
  unfolding lookup insert
  lookup-insert k j v [] = refl
  lookup-insert k j v ((i, w) ∷ d) =
      ground (arith, e.same_iff k j, e.same_iff i k, e.same_iff i j, lookup-insert k j v d)

  pub lookup-insert_self : (k : K) (v : V) (d : Dict K V) → lookup k (insert k v d) ≡ some v
  lookup-insert_self k v d = rw (lookup-insert k k v d, same_refl k)

  pub lookup-insert_ne :
      (k j : K) (v : V) (d : Dict K V) → e.same k j ≡ false → lookup j (insert k v d) ≡ lookup j d
  lookup-insert_ne k j v d h = rw (lookup-insert k j v d, h)

-- A value put in place of one with the same image changes no image.
module _ {ℓ κ ι} {K : Type ℓ} {V : Type κ} {W : Type ι} ⦃e : Key K⦄ (f : V → W) where
  pub map-lookup-insert :
      (k j : K) (v w : V) (d : Dict K V)
      → lookup k d ≡ some v
      → f w ≡ f v
      → Option.map f (lookup j (insert k w d)) ≡ Option.map f (lookup j d)
  map-lookup-insert k j v w d found same = elim (Bool-cases (e.same k j)) [
    | inl here ↦
        let at : lookup j d ≡ some v =
          subst (λ x. lookup x d ≡ some v) ((e.same_iff k j).0 here) found in
        rw (lookup-insert k j w d, here, at) (ap some same)
    | inr other ↦ rw (lookup-insert k j w d, other)
  ]

-- A property of every entry, by its key and value.
module _ {ℓ κ ι} {K : Type ℓ} {V : Type κ} ⦃e : Key K⦄ (P : K → V → Type ι) where
  abbrev pub Entries : Dict K V → Type ι
  Entries d = All (λ p. P p.0 p.1) d

  pub lookup-Entries : (k : K) (v : V) (d : Dict K V) → Entries d → lookup k d ≡ some v → P k v
  unfolding lookup
  lookup-Entries k v [] h found = cc
  lookup-Entries k v ((j, w) ∷ d) h found = elim (Bool-cases (e.same j k)) [
    | inl same ↦ subst₂ P ((e.same_iff j k).0 same) (some-injective w v (rw same at found)) h.0
    | inr other ↦ lookup-Entries k v d h.1 (rw other at found)
  ]

  pub insert-Entries : (k : K) (v : V) (d : Dict K V) → P k v → Entries d → Entries (insert k v d)
  unfolding insert
  insert-Entries k v [] new h = (new, tt)
  insert-Entries k v ((j, w) ∷ d) new h = elim (Bool-cases (e.same j k)) [
    | inl same ↦ rw (same, insert) (subst (λ x. P x v) (sym ((e.same_iff j k).0 same)) new, h.1)
    | inr other ↦ rw (other, insert) (h.0, insert-Entries k v d new h.1)
  ]

abbrev pub values {ℓ κ} : {K : Type ℓ} {V : Type κ} → Dict K V → List V
values d = map (λ p. p.1) d

abbrev pub keys {ℓ κ} : {K : Type ℓ} {V : Type κ} → Dict K V → List K
keys d = map (λ p. p.0) d

pub values-All {ℓ κ ι} :
    {K : Type ℓ} {V : Type κ} (P : K → V → Type ι) (Q : V → Type ι) (d : Dict K V)
    → ((k : K) (v : V) → P k v → Q v)
    → All (λ p. P p.0 p.1) d
    → All Q (values d)
values-All P Q [] f h = tt
values-All P Q ((k, v) ∷ d) f h = (f k v h.0, values-All P Q d f h.1)

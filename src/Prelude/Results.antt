-- ===== src/Prelude/Results.antt =====
-- Code that may raise returns a `Result` over the type of what it raises.
use mathlib.Core.Path.{◌≡◌}

pub data Result {ℓ κ} (X : Type κ) (A : Type ℓ) : Type (ℓ ⊔ κ) where
  ok : A → Result X A
  raised : X → Result X A

-- A result is that of one value.
pub ok-injective {ℓ κ} :
    {X : Type κ} {A : Type ℓ} {a b : A} (r : Result X A) → r ≡ ok a → r ≡ ok b → a ≡ b
ok-injective r h k = cc

-- No result is both a value and an exception.
pub ok-raised {ℓ κ} :
    {X : Type κ} {A : Type ℓ} {a : A} {x : X} (r : Result X A) → r ≡ ok a → r ≡ raised x → ⊥
ok-raised r h k = cc

-- ===== src/Common/Results.antt =====
-- The result of a routine that indexes arrays or loops, and its sequencing.
use mathlib.Core.Path.{◌≡◌}
use mathlib.Core.Option.{Option, none, some}

-- A value; an access outside an array, which C leaves undefined; or no end within the fuel.
pub data Outcome {ℓ} (A : Type ℓ) : Type ℓ where
  done : A → Outcome A
  fault no_end : Outcome A

infixl 5 ◌>>=◌
abbrev pub ◌>>=◌ {ℓ κ} : {A : Type ℓ} {B : Type κ} → Outcome A → (A → Outcome B) → Outcome B
done a >>= k = k a
fault >>= k = fault
no_end >>= k = no_end

-- An element that has to be there.
abbrev pub checked {ℓ} : {A : Type ℓ} → Option A → Outcome A
checked none = fault
checked (some a) = done a

pub done-injective {ℓ} : {A : Type ℓ} (a b : A) → done a ≡ done b → a ≡ b
done-injective a b e = cc

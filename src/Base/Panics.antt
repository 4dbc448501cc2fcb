-- ===== src/Base/Panics.antt =====
-- Go code that may panic: the value that it returns, or the panic that it raises.
use mathlib.Core.Path.{◌≡◌, refl}
use mathlib.Core.List.{List}
use mathlib.Core.Logic.{◌⊎◌, inl, inr}
use mathlib.Core.Option.{Option, none, some}
use Prim.Native.Nat.{ℕ}

pub data Panic : Type 0 where
  -- `panic(text)`
  message : List ℕ → Panic
  -- an index outside an array or a slice
  index_out_of_range : Panic
  -- `x.(T)` where `x` does not hold a `T`
  type_assertion : Panic

pub data Outcome {ℓ} (A : Type ℓ) : Type ℓ where
  ok : A → Outcome A
  panic : Panic → Outcome A

infixl 5 ◌>>=◌
abbrev pub ◌>>=◌ {ℓ κ} : {A : Type ℓ} {B : Type κ} → Outcome A → (A → Outcome B) → Outcome B
ok a >>= f = f a
panic p >>= f = panic p

-- The code returns, without a panic.
abbrev pub Returns {ℓ} : {A : Type ℓ} → Outcome A → Type ℓ
Returns {A} m = (a : A) × (m ≡ ok a)

-- To split on a computed value and keep the equation.
pub Outcome-cases {ℓ} :
    {A : Type ℓ} (m : Outcome A) → ((a : A) × (m ≡ ok a)) ⊎ ((p : Panic) × (m ≡ panic p))
Outcome-cases (ok a) = inl (a, refl)
Outcome-cases (panic p) = inr (p, refl)

pub Option-cases {ℓ} : {A : Type ℓ} (o : Option A) → (o ≡ none) ⊎ ((a : A) × (o ≡ some a))
Option-cases none = inl refl
Option-cases (some a) = inr (a, refl)

-- ===== src/Base/Below.antt =====
-- Tests that are run on every number below a bound.
use Prim.Native.Nat.{ℕ, zero, suc, ◌<◌}
use mathlib.Core.Path.{◌≡◌}
use mathlib.Core.Bool.{Bool, true, ◌&&◌, not}
use native.Mathlib.Decide.{ℕ_discrete}
use native.Mathlib.Omega.{arith}
use power.Base.Tests.{if◌then◌else◌}

-- A comparison of two tests on every number below `n`.
unfoldable pub agree_below : ℕ → (ℕ → Bool) → (ℕ → Bool) → Bool
agree_below zero f g = true
agree_below (suc n) f g = (if f n then g n else not (g n)) && agree_below n f g

pub agree_at : (n : ℕ) (f g : ℕ → Bool) (x : ℕ) → agree_below n f g ≡ true → x < n → f x ≡ g x
unfolding agree_below
agree_at zero f g x h l = absurd (omega arith)
agree_at (suc n) f g x h l = elim (ℕ_discrete x n) [
  | yes e ↦ rw e (ground arith)
  | no other ↦ ground (arith, agree_at n f g x)
]

-- ===== src/Base/Pow.antt =====
-- Powers of two, and division by them.
use Prim.Native.Nat.{ℕ, zero, suc, ◌+◌, ◌*◌, ◌/◌, ◌^◌, ◌≤◌, ◌<◌}
use mathlib.Core.Path.{◌≡◌, ap, sym}
use native.Mathlib.Nat.{pow-suc, one-le-pow, mul-lt-mul_of_pos_right, div-eq_of_lt-le}
use native.Mathlib.Nat.{add-suc, pow-le-pow_right}
use native.Mathlib.Omega.{arith}

pub two_pow_pos : (k : ℕ) → 1 ≤ 2 ^ k
two_pow_pos k = one-le-pow k 2 (omega arith)

pub two_pow-le : (i j : ℕ) → i ≤ j → 2 ^ i ≤ 2 ^ j
two_pow-le i j h = pow-le-pow_right {n = 2} (omega arith) h

pub two_pow-suc : (k : ℕ) → 2 ^ suc k ≡ 2 * 2 ^ k
two_pow-suc k = omega (arith, pow-suc 2 k)

pub two_pow-add : (a b : ℕ) → 2 ^ (a + b) ≡ 2 ^ a * 2 ^ b
two_pow-add a zero = let e : a + 0 ≡ a = omega arith in rw e (omega arith)
two_pow-add a (suc b) =
    rw add-suc
      (omega (arith, pow-suc 2 (a + b), two_pow-add a b, ap (λ (t : ℕ). 2 ^ a * t) (pow-suc 2 b)))

-- The product of two powers whose exponents add up to `n`.
pub two_pow_split : (a b n : ℕ) → a + b ≡ n → 2 ^ a * 2 ^ b ≡ 2 ^ n
two_pow_split a b n e = rw (← e) (sym (two_pow-add a b))

pub scale-lt : (u p q : ℕ) → u < p → 1 ≤ q → u * q < p * q
scale-lt u p q h hq = mul-lt-mul_of_pos_right h hq

-- A fixed-point quotient rounds the tail away.
pub div-of-add : (t q r : ℕ) → r < q → (t * q + r) / q ≡ t
div-of-add t q r h = div-eq_of_lt-le q (omega arith) (omega arith)

-- ===== src/Base/Bits.antt =====
-- `&` with a mask of low ones and `|` of disjoint fields, as arithmetic, at every width.
use Prim.Native.Nat.{ℕ, zero, suc, ◌+◌, ◌-◌, ◌*◌, ◌/◌, ◌%◌, ◌^◌, ◌≤◌, ◌<◌, min, max}
use Prim.Native.Nat.{bit_and, bit_or, digits, bitwise, bit_and-bitwise, bit_or-bitwise}
use mathlib.Core.Path.{◌≡◌, refl, ap, ◌∙◌}
use native.Mathlib.Nat.{le_refl, div-add-mod, mul-add-mod_self_left, mod-eq_of_lt, mod-lt}
use native.Mathlib.Omega.{arith}
use power.Base.Pow.{two_pow_pos, two_pow-suc}

-- The native operations stand for a recursion on binary digits; any fuel from `a` on gives the same.
module _ (last : ℕ → ℕ) (digit : ℕ → ℕ → ℕ) where
  enough_fuel : (m n a b : ℕ) → a ≤ m → a ≤ n → digits last digit m a b ≡ digits last digit n a b
  enough_fuel zero zero zero b h k = refl
  enough_fuel zero (suc n) zero b h k = refl
  enough_fuel (suc m) zero zero b h k = refl
  enough_fuel (suc m) (suc n) zero b h k = refl
  enough_fuel zero n (suc a) b h k = absurd (omega arith)
  enough_fuel (suc m) zero (suc a) b h k = absurd (omega arith)
  enough_fuel (suc m) (suc n) (suc a) b h k =
      ap (λ (t : ℕ). t * 2 + digit (suc a % 2) (b % 2))
        (enough_fuel m n (suc a / 2) (b / 2) (omega arith) (omega arith))

  low_digit :
      (a b : ℕ)
      → bitwise last digit (suc a) b
        ≡ bitwise last digit (suc a / 2) (b / 2) * 2 + digit (suc a % 2) (b % 2)
  low_digit a b =
      ap (λ (t : ℕ). t * 2 + digit (suc a % 2) (b % 2))
        (enough_fuel a (suc a / 2) (suc a / 2) (b / 2) (omega arith) (le_refl _))

pub and_low : (a b : ℕ) → bit_and a b ≡ bit_and (a / 2) (b / 2) * 2 + min (a % 2) (b % 2)
and_low zero b = simp bit_and-bitwise (omega arith)
and_low (suc a) b = simp bit_and-bitwise (low_digit (λ y. 0) min a b)

pub or_low : (a b : ℕ) → bit_or a b ≡ bit_or (a / 2) (b / 2) * 2 + max (a % 2) (b % 2)
or_low zero b = simp bit_or-bitwise (omega arith)
or_low (suc a) b = simp bit_or-bitwise (low_digit (λ y. y) max a b)

and_zero_below : (n a : ℕ) → a ≤ n → bit_and a 0 ≡ 0
and_zero_below n zero h = refl
and_zero_below zero (suc a) h = absurd (omega arith)
and_zero_below (suc n) (suc a) h =
    omega (arith, and_low (suc a) 0, and_zero_below n (suc a / 2) (omega arith))

or_zero_below : (n a : ℕ) → a ≤ n → bit_or a 0 ≡ a
or_zero_below n zero h = refl
or_zero_below zero (suc a) h = absurd (omega arith)
or_zero_below (suc n) (suc a) h =
    omega (arith, or_low (suc a) 0, or_zero_below n (suc a / 2) (omega arith))

-- The remainder by 2 ^ (k + 1) from the lowest bit and the remainder of the half.
mod_double : (a p : ℕ) → 1 ≤ p → a % (2 * p) ≡ a / 2 % p * 2 + a % 2
mod_double a p h =
    let r : ℕ = a / 2 % p * 2 + a % 2 in
    let e : a ≡ 2 * p * (a / 2 / p) + r = omega (arith, div-add-mod (a / 2) p) in
    ap (λ (t : ℕ). t % (2 * p)) e
    ∙ mul-add-mod_self_left (2 * p) (a / 2 / p) r
    ∙ mod-eq_of_lt (omega (arith, mod-lt (a / 2) h))

-- A mask of `k` ones keeps the remainder by `2 ^ k`.
pub bit_and_mask : (k a : ℕ) → bit_and a (2 ^ k - 1) ≡ a % 2 ^ k
bit_and_mask zero a = omega (arith, and_zero_below a a (le_refl a))
bit_and_mask (suc k) a =
    let half : (2 * 2 ^ k - 1) / 2 ≡ 2 ^ k - 1 = omega (arith, two_pow_pos k) in
    rw
      (
        two_pow-suc k,
        and_low a (2 * 2 ^ k - 1),
        half,
        bit_and_mask k (a / 2),
        mod_double a (2 ^ k) (two_pow_pos k),
      )
      (omega (arith, two_pow_pos k))

-- `u << k | x` is a sum when `x` fits in `k` bits.
pub bit_or_fields : (k u x : ℕ) → x < 2 ^ k → bit_or (u * 2 ^ k) x ≡ u * 2 ^ k + x
bit_or_fields zero u x h =
    let e : x ≡ 0 = omega arith in rw e (omega (arith, or_zero_below (u * 1) (u * 1) (le_refl _)))
bit_or_fields (suc k) u x h =
    let twice : u * 2 ^ suc k ≡ 2 * (u * 2 ^ k) =
      omega (arith, ap (λ (t : ℕ). u * t) (two_pow-suc k)) in
    let half : 2 * (u * 2 ^ k) / 2 ≡ u * 2 ^ k = omega arith in
    rw
      (
        twice,
        or_low (2 * (u * 2 ^ k)) x,
        half,
        bit_or_fields k u (x / 2) (omega (arith, two_pow-suc k)),
      )
      (omega arith)

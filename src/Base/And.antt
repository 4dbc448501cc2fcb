-- ===== src/Base/And.antt =====
-- Lemmas on `&` and `|`, digit by digit.
use Prim.Native.Nat.{
  ◌*◌, ℕ, zero, suc, ◌/◌, ◌%◌, ◌≤◌, min, max, ◌^◌, bit_and, bit_and-bitwise, bit_or, bit_or-bitwise,
}
use mathlib.Core.Path.{◌≡◌, refl, sym, ◌∙◌}
use native.Mathlib.Omega.{arith}
use power.Base.Bits.{and_low, or_low}
use native.Mathlib.Nat.{div-div-eq-div-mul}
use power.Base.Pow.{two_pow-suc}

and_half : (a b : ℕ) → bit_and a b / 2 ≡ bit_and (a / 2) (b / 2)
and_half a b = omega (arith, and_low a b)

and_parity : (a b : ℕ) → bit_and a b % 2 ≡ min (a % 2) (b % 2)
and_parity a b = omega (arith, and_low a b)

zero_and : (b : ℕ) → bit_and 0 b ≡ 0
zero_and b = simp bit_and-bitwise (omega arith)

min_assoc : (x y z : ℕ) → min (min x y) z ≡ min x (min y z)
min_assoc x y z = omega arith

and_assoc_below : (n a b c : ℕ) → a ≤ n → bit_and (bit_and a b) c ≡ bit_and a (bit_and b c)
and_assoc_below n zero b c h = rw (zero_and b, zero_and c, zero_and (bit_and b c)) refl
and_assoc_below zero (suc a) b c h = absurd (omega arith)
and_assoc_below (suc n) (suc a) b c h =
    let ih : bit_and (bit_and (suc a / 2) (b / 2)) (c / 2)
        ≡ bit_and (suc a / 2) (bit_and (b / 2) (c / 2)) =
      and_assoc_below n (suc a / 2) (b / 2) (c / 2) (omega arith) in
    and_low (bit_and (suc a) b) c
    ∙ rw
        (
          and_half (suc a) b,
          and_parity (suc a) b,
          ih,
          min_assoc (suc a % 2) (b % 2) (c % 2),
          ← and_half b c,
          ← and_parity b c,
        )
        (sym (and_low (suc a) (bit_and b c)))

pub bit_and_assoc : (a b c : ℕ) → bit_and (bit_and a b) c ≡ bit_and a (bit_and b c)
bit_and_assoc a b c = and_assoc_below a a b c (omega arith)

zero_or : (b : ℕ) → bit_or 0 b ≡ b
zero_or b = simp bit_or-bitwise (omega arith)

or_half : (a b : ℕ) → bit_or a b / 2 ≡ bit_or (a / 2) (b / 2)
or_half a b = omega (arith, or_low a b)

or_parity : (a b : ℕ) → bit_or a b % 2 ≡ max (a % 2) (b % 2)
or_parity a b = omega (arith, or_low a b)

min-max : (x y z : ℕ) → min x (max y z) ≡ max (min x y) (min x z)
min-max x y z = omega arith

and_or_below : (n a b c : ℕ) → a ≤ n → bit_and a (bit_or b c) ≡ bit_or (bit_and a b) (bit_and a c)
and_or_below n zero b c h = rw (zero_and b, zero_and c, zero_and (bit_or b c)) refl
and_or_below zero (suc a) b c h = absurd (omega arith)
and_or_below (suc n) (suc a) b c h =
    let ih : bit_and (suc a / 2) (bit_or (b / 2) (c / 2))
        ≡ bit_or (bit_and (suc a / 2) (b / 2)) (bit_and (suc a / 2) (c / 2)) =
      and_or_below n (suc a / 2) (b / 2) (c / 2) (omega arith) in
    and_low (suc a) (bit_or b c)
    ∙ rw
        (
          or_half b c,
          or_parity b c,
          ih,
          min-max (suc a % 2) (b % 2) (c % 2),
          ← and_half (suc a) b,
          ← and_half (suc a) c,
          ← and_parity (suc a) b,
          ← and_parity (suc a) c,
        )
        (sym (or_low (bit_and (suc a) b) (bit_and (suc a) c)))

pub bit_and-bit_or : (a b c : ℕ) → bit_and a (bit_or b c) ≡ bit_or (bit_and a b) (bit_and a c)
bit_and-bit_or a b c = and_or_below a a b c (omega arith)

-- A mask that is shifted up by `s`.
pub and_shifted : (s u m : ℕ) → bit_and u (m * 2 ^ s) ≡ bit_and (u / 2 ^ s) m * 2 ^ s
and_shifted zero u m =
    let a : m * 2 ^ 0 ≡ m = omega arith in
    let b : u / 2 ^ 0 ≡ u = omega arith in rw (a, b) (omega arith)
and_shifted (suc s) u m =
    let doubled : m * 2 ^ suc s ≡ m * 2 ^ s * 2 = rw (two_pow-suc s) (omega arith) in
    let half : m * 2 ^ suc s / 2 ≡ m * 2 ^ s = omega arith in
    let even : m * 2 ^ suc s % 2 ≡ 0 = omega arith in
    let twice : u / 2 / 2 ^ s ≡ u / (2 * 2 ^ s) = div-div-eq-div-mul u 2 (2 ^ s) in
    and_low u (m * 2 ^ suc s)
    ∙ rw (half, even, and_shifted s (u / 2) m, twice, two_pow-suc s) (omega arith)

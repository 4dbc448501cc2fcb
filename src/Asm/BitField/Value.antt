-- ===== src/Asm/BitField/Value.antt =====
-- The number that a bit field stands for.
use power.Base.{
  ℕ, ◌+◌, ◌-◌, ◌*◌, ◌/◌, ◌%◌, ◌^◌, ◌≤◌, ◌<◌, false, ltb, if◌then◌else◌, ℤ, pos, negsuc, ok, ◌≡◌,
  arith, Returns, ◌↔◌, Bool-cases, inl, inr,
}
use power.Base.Bits.{bit_and_mask}
use power.Base.Pow.{two_pow_pos, two_pow-le}
use power.Asm.BitField.{BitField, sub_u8, is_invalid, parse}
use native.Mathlib.Nat.{mod-lt}

-- A field that lies in the word.
abbrev pub IsValid : BitField → Type 0
IsValid b = (0 < b.bits) × (b.offs + b.bits ≤ 32)

-- The bits of the field, read as a number.
abbrev pub value : BitField → ℕ → ℕ
value b i = i / 2 ^ (32 - b.offs - b.bits) % 2 ^ b.bits

-- Two's complement on `n` bits.
unfoldable pub sign_extend : ℕ → ℕ → ℤ
sign_extend n u = if ltb u (2 ^ (n - 1)) then pos u else negsuc (2 ^ n - 1 - u)

pub valid→not_invalid : (b : BitField) → IsValid b → is_invalid b ≡ false
unfolding is_invalid
valid→not_invalid b h = ground arith

pub not_invalid→valid : (b : BitField) → b.offs < 256 → is_invalid b ≡ false → IsValid b
unfolding is_invalid
not_invalid→valid b h e = ground arith

-- `(1 << n) - 1` in uint32 is a mask of `n` ones, for 32 as well.
mask : (n : ℕ) → n ≤ 32 → (1 * 2 ^ n % 2 ^ 32 + 2 ^ 32 - 1) % 2 ^ 32 ≡ 2 ^ n - 1
mask n h = let top : 2 ^ n ≤ 2 ^ 32 = two_pow-le n 32 h in omega (arith, two_pow_pos n)

-- On a field that is not empty and lies in the 32 bits, all 32 included, `Parse` returns the number
-- that the field's bits make, the first bit on top.
pub parse-value : (b : BitField) (i : ℕ) → IsValid b → parse b i ≡ ok (value b i)
unfolding parse
parse-value b i h =
    let shift : sub_u8 (sub_u8 32 b.offs) b.bits ≡ 32 - b.offs - b.bits = omega arith in
    rw (valid→not_invalid b h, shift, mask b.bits (omega arith), bit_and_mask b.bits)

pub value-lt : (b : BitField) (i : ℕ) → value b i < 2 ^ b.bits
value-lt b i = mod-lt _ (two_pow_pos b.bits)

-- For every offset that a uint8 holds, `Parse` returns exactly if the field is not empty and lies in
-- the 32 bits; on every other field it panics.
pub parse-Returns : (b : BitField) (i : ℕ) → b.offs < 256 → Returns (parse b i) ↔ IsValid b
unfolding parse
parse-Returns b i h = (
  λ r. elim (Bool-cases (is_invalid b)) [
    | inl bad ↦ absurd (cc (rw (parse, bad) at r.1))
    | inr good ↦ not_invalid→valid b h good
  ],
  λ v. (value b i, parse-value b i v),
)

-- ===== src/Asm/BitField/Signed.antt =====
-- power64asm/field.go: the signed reading of a bit field by two shifts.
use power.Base.{
  ℕ, zero, suc, ◌+◌, ◌-◌, ◌*◌, ◌^◌, ◌≤◌, ◌<◌, ltb, pos, negsuc, ok, ◌≡◌, arith, ap, not_lt→ltb,
  lt→ltb, Bool-cases, inl, inr, ltb→lt,
}
use power.Base.Pow.{two_pow_pos, two_pow-le, two_pow-suc, two_pow_split, scale-lt, div-of-add}
use power.Base.Int.{to_signed, to_unsigned, shift_left, shift_right}
use power.Asm.BitField.{BitField, sub_u8, parse_signed}
use power.Asm.BitField.Value.{IsValid, value, value-lt, sign_extend, parse-value}
use native.Mathlib.Nat.{mod-eq_of_lt, mul-div_cancel, mul-le-mul_right}

pub to_unsigned-to_signed : (u : ℕ) → u < 2 ^ 32 → to_unsigned 32 (to_signed 32 u) ≡ u
to_unsigned-to_signed u h = ground arith

module _ (m u : ℕ) (hm : m ≤ 31) (hu : u < 2 * 2 ^ m) where
  scaled-lt : u * 2 ^ (31 - m) < 2 ^ 32
  scaled-lt = omega (
    arith,
    scale-lt u (2 * 2 ^ m) (2 ^ (31 - m)) hu (two_pow_pos _),
    two_pow_split m (31 - m) 31 (omega arith),
  )

  keep_low : u < 2 ^ m → shift_right (to_signed 32 (u * 2 ^ (31 - m))) (31 - m) ≡ pos u
  keep_low h =
      let low : u * 2 ^ (31 - m) < 2 ^ 31 = omega (
        arith,
        scale-lt u (2 ^ m) (2 ^ (31 - m)) h (two_pow_pos _),
        two_pow_split m (31 - m) 31 (omega arith),
      ) in
      rw (mod-eq_of_lt scaled-lt, lt→ltb _ _ low) (ap pos (mul-div_cancel u (two_pow_pos (31 - m))))

  -- 2 ^ 32 - u * q - 1 is (2 ^ n - 1 - u) * q + (q - 1), where q is 2 ^ (32 - n).
  keep_high :
      2 ^ m ≤ u
      → shift_right (to_signed 32 (u * 2 ^ (31 - m))) (31 - m) ≡ negsuc (2 * 2 ^ m - 1 - u)
  keep_high h =
      let q : ℕ = 2 ^ (31 - m) in
      let t : ℕ = 2 * 2 ^ m - 1 - u in
      let whole : 2 ^ m * q ≡ 2 ^ 31 = two_pow_split m (31 - m) 31 (omega arith) in
      let high : 2 ^ 31 ≤ u * q = omega (arith, mul-le-mul_right q h) in
      let sum : t + u + 1 ≡ 2 * 2 ^ m = omega arith in
      let tail : 2 ^ 32 - u * q - 1 ≡ t * q + (q - 1) =
        omega (arith, ap (λ (x : ℕ). x * q) sum, two_pow_pos (31 - m)) in
      rw (mod-eq_of_lt scaled-lt, not_lt→ltb _ _ high, tail)
        (ap negsuc (div-of-add t q (q - 1) (omega (arith, two_pow_pos (31 - m)))))

pub shifts-sign_extend :
    (n u : ℕ)
    → 0 < n
    → n ≤ 32
    → u < 2 ^ n
    → shift_right (shift_left 32 (to_signed 32 u) (sub_u8 32 n)) (sub_u8 32 n) ≡ sign_extend n u
unfolding sign_extend
shifts-sign_extend zero u h k l = absurd (omega arith)
shifts-sign_extend (suc m) u h k l =
    let hu : u < 2 * 2 ^ m = omega (arith, two_pow-suc m) in
    let small : 2 ^ suc m ≤ 2 ^ 32 = two_pow-le (suc m) 32 k in
    let count : sub_u8 32 (suc m) ≡ 31 - m = omega arith in
    let pred : suc m - 1 ≡ m = omega arith in
    rw (to_unsigned-to_signed u (omega arith), count, pred, two_pow-suc m)
      (elim (Bool-cases (ltb u (2 ^ m))) [
        | inl low ↦ rw low (keep_low m u (omega arith) hu (ltb→lt _ _ low))
        | inr high ↦ rw high (keep_high m u (omega arith) hu (ground arith))
      ])

-- On a field that is not empty and lies in the 32 bits, `ParseSigned` returns the field's bits as a
-- two's complement number: the shifts to the left and back on int32 extend the sign.
pub parse_signed-value :
    (b : BitField) (i : ℕ) → IsValid b → parse_signed b i ≡ ok (sign_extend b.bits (value b i))
unfolding parse_signed
parse_signed-value b i h =
    rw (parse-value b i h)
      (ap ok (shifts-sign_extend b.bits (value b i) h.0 (omega arith) (value-lt b i)))

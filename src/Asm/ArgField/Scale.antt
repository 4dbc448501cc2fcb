-- ===== src/Asm/ArgField/Scale.antt =====
-- power64asm/decode.go: a signed field shifted left by its scale.
use power.Base.{
  ℕ, zero, suc, ◌+◌, ◌-◌, ◌*◌, ◌%◌, ◌^◌, ◌≤◌, ◌<◌, ℤ, pos, negsuc, ltb, false, ◌≡◌, refl, arith, ap,
  ◌∙◌, Bool-cases, inl, inr, ltb→lt, lt→ltb, not_lt→ltb,
}
use power.Base.Int.{shift_left}
use power.Base.Pow.{two_pow_pos, two_pow-le, two_pow-suc, two_pow_split, scale-lt}
use power.Asm.BitField.Value.{sign_extend}
use native.Mathlib.Nat.{mod-eq_of_lt, mul-le-mul_right}
use native.Mathlib.Nat.{mul-add-mod_self_right}

-- z * 2 ^ s
unfoldable pub scale : ℤ → ℕ → ℤ
scale (pos n) s = pos (n * 2 ^ s)
scale (negsuc n) s = negsuc ((n + 1) * 2 ^ s - 1)

module _ (m s : ℕ) (h : m + s ≤ 31) where
  half_word : 2 ^ m * 2 ^ s ≤ 2 ^ 31
  half_word =
      let e : 2 ^ (m + s) ≤ 2 ^ 31 = two_pow-le (m + s) 31 h in
      omega (arith, two_pow_split m s (m + s) refl)

  scale_pos : (n : ℕ) → n < 2 ^ m → shift_left 32 (pos n) s ≡ pos (n * 2 ^ s)
  scale_pos n l =
      let small : n * 2 ^ s < 2 ^ 31 =
        omega (arith, half_word, scale-lt n (2 ^ m) (2 ^ s) l (two_pow_pos s)) in
      let top : 2 ^ m ≤ 2 ^ 31 = two_pow-le m 31 (omega arith) in
      let whole : n % 2 ^ 32 ≡ n = mod-eq_of_lt {n = n} {m = 2 ^ 32} (omega arith) in
      let kept : n * 2 ^ s % 2 ^ 32 ≡ n * 2 ^ s = mod-eq_of_lt {m = 2 ^ 32} (omega arith) in
      rw (whole, kept, lt→ltb _ _ small)

  -- (2 ^ 32 - 1 - n) * q is (q - 1) * 2 ^ 32 + (2 ^ 32 - (n + 1) * q).
  scale_neg : (n : ℕ) → n < 2 ^ m → shift_left 32 (negsuc n) s ≡ negsuc ((n + 1) * 2 ^ s - 1)
  scale_neg n l =
      let q : ℕ = 2 ^ s in
      let x : ℕ = (n + 1) * q in
      let small : x ≤ 2 ^ 31 = omega (arith, half_word, mul-le-mul_right q l) in
      let some_bits : q ≤ x = omega arith in
      let top : 2 ^ m ≤ 2 ^ 31 = two_pow-le m 31 (omega arith) in
      let whole : n % 2 ^ 32 ≡ n = mod-eq_of_lt {n = n} {m = 2 ^ 32} (omega arith) in
      let sum : 2 ^ 32 - 1 - n + n + 1 ≡ 2 ^ 32 = omega arith in
      let split : (2 ^ 32 - 1 - n) * q ≡ (q - 1) * 2 ^ 32 + (2 ^ 32 - x) =
        omega (arith, ap (λ (t : ℕ). t * q) sum, two_pow_pos s) in
      let kept : (2 ^ 32 - 1 - n) * q % 2 ^ 32 ≡ 2 ^ 32 - x =
        ap (λ (t : ℕ). t % 2 ^ 32) split
        ∙ mul-add-mod_self_right (q - 1) (2 ^ 32) (2 ^ 32 - x)
        ∙ mod-eq_of_lt (omega (arith, two_pow_pos s)) in
      let high : 2 ^ 31 ≤ 2 ^ 32 - x = omega arith in
      let flip : 2 ^ 32 - (2 ^ 32 - x) - 1 ≡ x - 1 = omega arith in
      rw (whole, kept, not_lt→ltb _ _ high, flip)

pub shift_left-scale :
    (n s u : ℕ)
    → 0 < n
    → n + s ≤ 32
    → u < 2 ^ n
    → shift_left 32 (sign_extend n u) s ≡ scale (sign_extend n u) s
unfolding sign_extend scale
shift_left-scale zero s u h k l = absurd (omega arith)
shift_left-scale (suc m) s u h k l =
    let e : suc m - 1 ≡ m = omega arith in
    rw e (elim (Bool-cases (ltb u (2 ^ m))) [
      | inl low ↦ rw low (scale_pos m s (omega arith) u (ltb→lt _ _ low))
      | inr high ↦ rw high (
          scale_neg m s (omega arith) (2 ^ suc m - 1 - u)
            (omega (arith, two_pow-suc m, ltb→ge u (2 ^ m) high)))
    ])
  where
    ltb→ge : (a b : ℕ) → ltb a b ≡ false → b ≤ a
    ltb→ge a b f = ground arith

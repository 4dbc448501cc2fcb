-- ===== src/Asm/ArgField/Injective.antt =====
-- power64asm/decode.go: what an argument says of the bits that it is read from.
use power.Base.{ℕ, ◌+◌, ◌*◌, ◌/◌, ◌^◌, ◌≤◌, ◌<◌, ℤ, pos, negsuc, some, ◌≡◌, arith, sym, ap, ◌∙◌}
use power.Base.Int.{to_signed, to_unsigned, shift_left}
use power.Base.Pow.{two_pow_pos}
use power.Asm.Inst.{Arg}
use power.Asm.BitField.Value.{sign_extend}
use power.Asm.ArgField.{
  ArgType, type_unknown, type_pc_rel, type_label, type_reg, type_cond_reg_bit, type_cond_reg_field,
  type_fp_reg, type_vec_reg, type_sp_reg, type_imm_signed, type_imm_unsigned, type_offset,
  type_last, other,
}
use power.Asm.ArgField.Scale.{scale, shift_left-scale}
use power.Asm.ArgField.Meaning.{meaning_as, room}
use native.Mathlib.Nat.{mul-div_cancel}

times_cancel : (s x y : ℕ) → x * 2 ^ s ≡ y * 2 ^ s → x ≡ y
times_cancel s x y e =
    sym (mul-div_cancel x (two_pow_pos s))
    ∙ ap (λ (t : ℕ). t / 2 ^ s) e
    ∙ mul-div_cancel y (two_pow_pos s)

pos-eq : (n m : ℕ) → pos n ≡ pos m → n ≡ m
pos-eq n m e = cc

negsuc-eq : (n m : ℕ) → negsuc n ≡ negsuc m → n ≡ m
negsuc-eq n m e = cc

scale-eq : (z w : ℤ) (s : ℕ) → scale z s ≡ scale w s → z ≡ w
unfolding scale
scale-eq (pos n) (pos m) s e = ap pos (times_cancel s n m (pos-eq _ _ e))
scale-eq (pos n) (negsuc m) s e = cc
scale-eq (negsuc n) (pos m) s e = cc
scale-eq (negsuc n) (negsuc m) s e =
    let q : ℕ = 2 ^ s in
    let first : q ≤ (n + 1) * q = omega arith in
    let second : q ≤ (m + 1) * q = omega arith in
    let same : (n + 1) * q ≡ (m + 1) * q = omega (arith, negsuc-eq _ _ e, two_pow_pos s) in
    let more : n + 1 ≡ m + 1 = times_cancel s (n + 1) (m + 1) same in ap negsuc (omega arith)

sign_extend-eq : (n x y : ℕ) → x < 2 ^ n → y < 2 ^ n → sign_extend n x ≡ sign_extend n y → x ≡ y
unfolding sign_extend
sign_extend-eq n x y h l e = ground arith

again : (w : ℕ) → to_signed 32 (to_unsigned 32 (to_signed 32 w)) ≡ to_signed 32 w
again w = ground arith

some-eq : (a b : Arg) → some a ≡ some b → a ≡ b
some-eq a b e = cc

module _ (s n x y : ℕ) (some_bits : 0 < n) (hx : x < 2 ^ n) (hy : y < 2 ^ n) where
  scaled-eq : scale (sign_extend n x) s ≡ scale (sign_extend n y) s → x ≡ y
  scaled-eq e = sign_extend-eq n x y hx hy (scale-eq (sign_extend n x) (sign_extend n y) s e)

  -- A label is the bit pattern of a number of 32 bits, and determines it.
  label-eq :
      n + s ≤ 32
      → to_unsigned 32 (scale (sign_extend n x) s) ≡ to_unsigned 32 (scale (sign_extend n y) s)
      → x ≡ y
  label-eq h e =
      let kept_x : shift_left 32 (sign_extend n x) s ≡ scale (sign_extend n x) s =
        shift_left-scale n s x some_bits h hx in
      let kept_y : shift_left 32 (sign_extend n y) s ≡ scale (sign_extend n y) s =
        shift_left-scale n s y some_bits h hy in
      let a : ℕ = to_unsigned 32 (sign_extend n x) * 2 ^ s in
      let b : ℕ = to_unsigned 32 (sign_extend n y) * 2 ^ s in
      let patterns : to_unsigned 32 (to_signed 32 a) ≡ to_unsigned 32 (to_signed 32 b) =
        rw (kept_x, kept_y) e in
      scaled-eq (sym kept_x ∙ sym (again a) ∙ ap (to_signed 32) patterns ∙ again b ∙ kept_y)

  -- The argument that is made of a number determines the number.
  pub meaning_as-eq :
      (t : ArgType) → n + s ≤ room t → meaning_as t s n x ≡ meaning_as t s n y → x ≡ y
  unfolding meaning_as room
  meaning_as-eq type_reg h e = let f : 1 + x ≡ 1 + y = cc in omega arith
  meaning_as-eq type_cond_reg_bit h e = let f : 1 + x ≡ 1 + y = cc in omega arith
  meaning_as-eq type_cond_reg_field h e = let f : 33 + x ≡ 33 + y = cc in omega arith
  meaning_as-eq type_fp_reg h e = let f : 33 + x ≡ 33 + y = cc in omega arith
  meaning_as-eq type_vec_reg h e = let f : 65 + x ≡ 65 + y = cc in omega arith
  meaning_as-eq type_sp_reg h e = cc
  meaning_as-eq type_imm_signed h e = scaled-eq cc
  meaning_as-eq type_imm_unsigned h e = times_cancel s x y cc
  meaning_as-eq type_pc_rel h e = scaled-eq cc
  meaning_as-eq type_label h e = label-eq h cc
  meaning_as-eq type_offset h e = scaled-eq cc
  meaning_as-eq type_unknown h e = absurd (omega arith)
  meaning_as-eq type_last h e = absurd (omega arith)
  meaning_as-eq (other z) h e = absurd (omega arith)

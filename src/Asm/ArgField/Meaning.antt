-- ===== src/Asm/ArgField/Meaning.antt =====
-- The argument that a field stands for, in plain arithmetic.
use power.Base.{ℕ, ◌+◌, ◌*◌, ◌^◌, ◌≤◌, ◌<◌, pos, Option, none, some, ok, ◌≡◌, refl, arith}
use power.Base.Int.{to_unsigned, shift_left}
use power.Base.Pow.{two_pow_pos, two_pow-le, two_pow_split, scale-lt}
use power.Asm.Inst.{Arg, reg, cond_reg, sp_reg, pc_rel, label, imm, offset}
use power.Asm.BitField.Value.{sign_extend}
use power.Asm.BitFields.{BitFields}
use power.Asm.BitFields.Value.{
  width, joined, Fits, joined_bound, parse_unsigned-joined, parse_signed-joined,
}
use power.Asm.ArgField.{
  ArgType, ArgField, parse_as, parse, type_unknown, type_pc_rel, type_label, type_reg,
  type_cond_reg_bit, type_cond_reg_field, type_fp_reg, type_vec_reg, type_sp_reg, type_imm_signed,
  type_imm_unsigned, type_offset, type_last, other,
}
use power.Asm.ArgField.Scale.{scale, shift_left-scale}

-- The argument of a type and a scale, for fields that join to `u` on `n` bits.
unfoldable pub meaning_as : ArgType → ℕ → ℕ → ℕ → Option Arg
meaning_as type_reg s n u = some (reg (1 + u))
meaning_as type_cond_reg_bit s n u = some (cond_reg (pos (1 + u)))
meaning_as type_cond_reg_field s n u = some (cond_reg (pos (33 + u)))
meaning_as type_fp_reg s n u = some (reg (33 + u))
meaning_as type_vec_reg s n u = some (reg (65 + u))
meaning_as type_sp_reg s n u = some (sp_reg u)
meaning_as type_imm_signed s n u = some (imm (scale (sign_extend n u) s))
meaning_as type_imm_unsigned s n u = some (imm (pos (u * 2 ^ s)))
meaning_as type_pc_rel s n u = some (pc_rel (scale (sign_extend n u) s))
meaning_as type_label s n u = some (label (to_unsigned 32 (scale (sign_extend n u) s)))
meaning_as type_offset s n u = some (offset (scale (sign_extend n u) s))
meaning_as type_unknown s n u = none
meaning_as type_last s n u = none
meaning_as (other z) s n u = none

-- The bits that fields and scale may take together.
unfoldable pub room : ArgType → ℕ
room type_reg = 5
room type_cond_reg_bit = 5
room type_cond_reg_field = 3
room type_fp_reg = 5
room type_vec_reg = 6
room type_sp_reg = 10
room type_imm_signed = 32
room type_imm_unsigned = 31
room type_pc_rel = 32
room type_label = 32
room type_offset = 32
room type_unknown = 0
room type_last = 0
room (other z) = 0

-- A field of the table: its parts lie in the word, and the value has room in its type.
abbrev pub IsSound : ArgField → Type 0
IsSound a =
    Fits a.bit_fields × (0 < width a.bit_fields) × (width a.bit_fields + a.shift ≤ room a.arg_type)

unfoldable pub meaning : ArgField → ℕ → Option Arg
unfolding meaning_as
meaning a i = meaning_as a.arg_type a.shift (width a.bit_fields) (joined 0 a.bit_fields i)

module _ (s : ℕ) (bs : BitFields) (i : ℕ) (fits : Fits bs) (some_bits : 0 < width bs) where
  below : (k : ℕ) → width bs + s ≤ k → joined 0 bs i < 2 ^ k
  below k h = omega (arith, joined_bound bs i, two_pow-le (width bs) k (omega arith))

  unsigned_part : (k : ℕ) → width bs + s ≤ k → joined 0 bs i * 2 ^ s < 2 ^ k
  unsigned_part k h = omega (
    arith,
    scale-lt (joined 0 bs i) (2 ^ width bs) (2 ^ s) (joined_bound bs i) (two_pow_pos s),
    two_pow_split (width bs) s (width bs + s) refl,
    two_pow-le (width bs + s) k h,
  )

  signed_part :
      width bs + s ≤ 32
      → shift_left 32 (sign_extend (width bs) (joined 0 bs i)) s
        ≡ scale (sign_extend (width bs) (joined 0 bs i)) s
  signed_part h = shift_left-scale (width bs) s (joined 0 bs i) some_bits h (joined_bound bs i)

  parse_as-meaning :
      (t : ArgType)
      → width bs + s ≤ room t
      → parse_as t s bs i ≡ ok (meaning_as t s (width bs) (joined 0 bs i))
  unfolding parse_as meaning_as room
  parse_as-meaning type_unknown h = refl
  parse_as-meaning type_last h = refl
  parse_as-meaning (other z) h = refl
  parse_as-meaning type_reg h = rw (parse_unsigned-joined bs i fits) (ground (arith, below 5 h))
  parse_as-meaning type_fp_reg h = rw (parse_unsigned-joined bs i fits) (ground (arith, below 5 h))
  parse_as-meaning type_vec_reg h = rw (parse_unsigned-joined bs i fits) (ground (arith, below 6 h))
  parse_as-meaning type_sp_reg h = rw (parse_unsigned-joined bs i fits) (ground (arith, below 10 h))
  parse_as-meaning type_cond_reg_bit h =
      rw (parse_unsigned-joined bs i fits) (ground (arith, below 5 h))
  parse_as-meaning type_cond_reg_field h =
      rw (parse_unsigned-joined bs i fits) (ground (arith, below 3 h))
  parse_as-meaning type_imm_unsigned h =
      rw (parse_unsigned-joined bs i fits) (ground (arith, unsigned_part 31 h))
  parse_as-meaning type_imm_signed h = rw (parse_signed-joined bs i fits some_bits, signed_part h)
  parse_as-meaning type_pc_rel h = rw (parse_signed-joined bs i fits some_bits, signed_part h)
  parse_as-meaning type_label h = rw (parse_signed-joined bs i fits some_bits, signed_part h)
  parse_as-meaning type_offset h = rw (parse_signed-joined bs i fits some_bits, signed_part h)

-- On a field whose parts lie in the word and whose bits, with the scale, have room in its type,
-- `argField.Parse` returns, with no panic, the argument that the joined bits stand for: a register, a
-- condition bit or field, or a number, its sign extended if the type has one, times the scale. No
-- conversion to a narrower type loses a bit.
pub parse-meaning : (a : ArgField) (i : ℕ) → IsSound a → parse a i ≡ ok (meaning a i)
unfolding parse meaning
parse-meaning a i (fits, some_bits, small) =
    parse_as-meaning a.shift a.bit_fields i fits some_bits a.arg_type small

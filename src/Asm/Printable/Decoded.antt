-- ===== src/Asm/Printable/Decoded.antt =====
-- The arguments that the decoder makes of a sound rule, as the printers see them.
use power.Base.{
  ℕ, ◌+◌, ◌≤◌, ◌<◌, ◌^◌, true, not, ◌||◌, &&-true, List, [], ◌∷◌, Option, none, some, ◌≡◌, refl,
  arith,
}
use power.Base.Pow.{two_pow-le}
use power.Asm.Inst.{Args}
use power.Asm.BitFields.Value.{width, joined, joined_bound}
use power.Asm.ArgField.{
  ArgType, ArgField, type_unknown, type_pc_rel, type_label, type_reg, type_cond_reg_bit,
  type_cond_reg_field, type_fp_reg, type_vec_reg, type_sp_reg, type_imm_signed, type_imm_unsigned,
  type_offset, type_last, other,
}
use power.Asm.ArgField.Meaning.{IsSound, room, meaning, meaning_as}
use power.Asm.Decode.Rules.{
  field_ok, fields_ok, is_offset, is_reg, starts_with_reg, field_ok→IsSound,
}
use power.Asm.Decode.Loops.{arg_meanings}
use power.Asm.Printable.{StartsWithReg, Printable}

module _ (s n u : ℕ) (rest : Args) (small : u < 2 ^ n) where
  bounded : (k : ℕ) → n + s ≤ k → u < 2 ^ k
  bounded k h = omega (arith, two_pow-le n k (omega arith))

  meaning_as-Printable :
      (t : ArgType)
      → n + s ≤ room t
      → (is_offset t ≡ true → StartsWithReg rest)
      → Printable rest
      → Printable (meaning_as t s n u ∷ rest)
  unfolding meaning_as room is_offset
  meaning_as-Printable type_unknown h follows p = tt
  meaning_as-Printable type_last h follows p = tt
  meaning_as-Printable (other z) h follows p = tt
  meaning_as-Printable type_reg h follows p = (omega (arith, bounded 5 h), p)
  meaning_as-Printable type_fp_reg h follows p = (omega (arith, bounded 5 h), p)
  meaning_as-Printable type_vec_reg h follows p = (omega (arith, bounded 6 h), p)
  meaning_as-Printable type_cond_reg_bit h follows p = (omega (arith, bounded 5 h), p)
  meaning_as-Printable type_cond_reg_field h follows p = (omega (arith, bounded 3 h), p)
  meaning_as-Printable type_sp_reg h follows p = (tt, p)
  meaning_as-Printable type_imm_signed h follows p = (tt, p)
  meaning_as-Printable type_imm_unsigned h follows p = (tt, p)
  meaning_as-Printable type_pc_rel h follows p = (tt, p)
  meaning_as-Printable type_label h follows p = (tt, p)
  meaning_as-Printable type_offset h follows p = (follows refl, p)

  meaning_as-starts :
      (t : ArgType) → n + s ≤ room t → is_reg t ≡ true → StartsWithReg (meaning_as t s n u ∷ rest)
  unfolding meaning_as room is_reg
  meaning_as-starts type_reg h e = omega (arith, bounded 5 h)
  meaning_as-starts t h e = cc

meanings-starts :
    (fs : List (Option ArgField)) (ui : ℕ)
    → fields_ok fs ≡ true
    → starts_with_reg fs ≡ true
    → StartsWithReg (arg_meanings fs ui)
unfolding arg_meanings starts_with_reg fields_ok meaning
meanings-starts [] ui h e = cc
meanings-starts (none ∷ rest) ui h e = cc
meanings-starts (some a ∷ rest) ui h e =
    let sound : IsSound a = field_ok→IsSound a (&&-true (field_ok a) _ h).0 in
    meaning_as-starts a.shift (width a.bit_fields) (joined 0 a.bit_fields ui) _
      (joined_bound a.bit_fields ui) a.arg_type sound.2 e

-- The table's fields give printable arguments, whatever the word.
pub meanings-Printable :
    (fs : List (Option ArgField)) (ui : ℕ) → fields_ok fs ≡ true → Printable (arg_meanings fs ui)
unfolding arg_meanings fields_ok meaning
meanings-Printable [] ui h = tt
meanings-Printable (none ∷ rest) ui h = tt
meanings-Printable (some a ∷ rest) ui h =
    let (good, others) = &&-true (field_ok a) _ h in
    let (pairs, rest_ok) = &&-true (not (is_offset a.arg_type) || starts_with_reg rest) _ others in
    let sound : IsSound a = field_ok→IsSound a good in
    meaning_as-Printable a.shift (width a.bit_fields) (joined 0 a.bit_fields ui)
      (arg_meanings rest ui) (joined_bound a.bit_fields ui) a.arg_type sound.2
      (λ e. meanings-starts rest ui rest_ok (ground arith)) (meanings-Printable rest ui rest_ok)

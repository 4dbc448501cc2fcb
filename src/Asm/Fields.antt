-- ===== src/Asm/Fields.antt =====
-- power64asm/tables.go: the argument fields that the decoding rules share.
use power.Base.{ℕ, [], ◌∷◌}
use power.Asm.BitField.{BitField}
use power.Asm.BitFields.{BitFields}
use power.Asm.ArgField.{
  ArgField, ArgType, type_cond_reg_bit, type_cond_reg_field, type_fp_reg, type_imm_signed,
  type_imm_unsigned, type_label, type_offset, type_pc_rel, type_reg, type_sp_reg, type_vec_reg,
}

abbrev span : ℕ → ℕ → BitField
span o n = record { offs = o; bits = n }

abbrev field : ArgType → ℕ → BitFields → ArgField
field t s bs = record { arg_type = t; shift = s; bit_fields = bs }

abbrev pub ap_reg_11_15 : ArgField
ap_reg_11_15 = field type_reg 0 (span 11 5 ∷ [])

abbrev pub ap_reg_6_10 : ArgField
ap_reg_6_10 = field type_reg 0 (span 6 5 ∷ [])

abbrev pub ap_pc_rel_6_29_shift2 : ArgField
ap_pc_rel_6_29_shift2 = field type_pc_rel 2 (span 6 24 ∷ [])

abbrev pub ap_label_6_29_shift2 : ArgField
ap_label_6_29_shift2 = field type_label 2 (span 6 24 ∷ [])

abbrev pub ap_imm_unsigned_6_10 : ArgField
ap_imm_unsigned_6_10 = field type_imm_unsigned 0 (span 6 5 ∷ [])

abbrev pub ap_cond_reg_bit_11_15 : ArgField
ap_cond_reg_bit_11_15 = field type_cond_reg_bit 0 (span 11 5 ∷ [])

abbrev pub ap_pc_rel_16_29_shift2 : ArgField
ap_pc_rel_16_29_shift2 = field type_pc_rel 2 (span 16 14 ∷ [])

abbrev pub ap_label_16_29_shift2 : ArgField
ap_label_16_29_shift2 = field type_label 2 (span 16 14 ∷ [])

abbrev pub ap_imm_unsigned_19_20 : ArgField
ap_imm_unsigned_19_20 = field type_imm_unsigned 0 (span 19 2 ∷ [])

abbrev pub ap_cond_reg_bit_6_10 : ArgField
ap_cond_reg_bit_6_10 = field type_cond_reg_bit 0 (span 6 5 ∷ [])

abbrev pub ap_cond_reg_bit_16_20 : ArgField
ap_cond_reg_bit_16_20 = field type_cond_reg_bit 0 (span 16 5 ∷ [])

abbrev pub ap_cond_reg_field_6_8 : ArgField
ap_cond_reg_field_6_8 = field type_cond_reg_field 0 (span 6 3 ∷ [])

abbrev pub ap_cond_reg_field_11_13 : ArgField
ap_cond_reg_field_11_13 = field type_cond_reg_field 0 (span 11 3 ∷ [])

abbrev pub ap_imm_unsigned_20_26 : ArgField
ap_imm_unsigned_20_26 = field type_imm_unsigned 0 (span 20 7 ∷ [])

abbrev pub ap_sp_reg_11_20 : ArgField
ap_sp_reg_11_20 = field type_sp_reg 0 (span 11 10 ∷ [])

abbrev pub ap_offset_16_31 : ArgField
ap_offset_16_31 = field type_offset 0 (span 16 16 ∷ [])

abbrev pub ap_reg_16_20 : ArgField
ap_reg_16_20 = field type_reg 0 (span 16 5 ∷ [])

abbrev pub ap_offset_16_29_shift2 : ArgField
ap_offset_16_29_shift2 = field type_offset 2 (span 16 14 ∷ [])

abbrev pub ap_offset_16_27_shift4 : ArgField
ap_offset_16_27_shift4 = field type_offset 4 (span 16 12 ∷ [])

abbrev pub ap_imm_unsigned_16_20 : ArgField
ap_imm_unsigned_16_20 = field type_imm_unsigned 0 (span 16 5 ∷ [])

abbrev pub ap_imm_signed_16_31 : ArgField
ap_imm_signed_16_31 = field type_imm_signed 0 (span 16 16 ∷ [])

abbrev pub ap_imm_unsigned_16_31 : ArgField
ap_imm_unsigned_16_31 = field type_imm_unsigned 0 (span 16 16 ∷ [])

abbrev pub ap_cond_reg_bit_21_25 : ArgField
ap_cond_reg_bit_21_25 = field type_cond_reg_bit 0 (span 21 5 ∷ [])

abbrev pub ap_imm_unsigned_21_25 : ArgField
ap_imm_unsigned_21_25 = field type_imm_unsigned 0 (span 21 5 ∷ [])

abbrev pub ap_imm_unsigned_26_30 : ArgField
ap_imm_unsigned_26_30 = field type_imm_unsigned 0 (span 26 5 ∷ [])

abbrev pub ap_imm_unsigned_30_30_16_20 : ArgField
ap_imm_unsigned_30_30_16_20 = field type_imm_unsigned 0 (span 30 1 ∷ span 16 5 ∷ [])

abbrev pub ap_imm_unsigned_26_26_21_25 : ArgField
ap_imm_unsigned_26_26_21_25 = field type_imm_unsigned 0 (span 26 1 ∷ span 21 5 ∷ [])

abbrev pub ap_sp_reg_16_20_11_15 : ArgField
ap_sp_reg_16_20_11_15 = field type_sp_reg 0 (span 16 5 ∷ span 11 5 ∷ [])

abbrev pub ap_imm_unsigned_12_19 : ArgField
ap_imm_unsigned_12_19 = field type_imm_unsigned 0 (span 12 8 ∷ [])

abbrev pub ap_imm_unsigned_10_10 : ArgField
ap_imm_unsigned_10_10 = field type_imm_unsigned 0 (span 10 1 ∷ [])

abbrev pub ap_vec_reg_31_31_6_10 : ArgField
ap_vec_reg_31_31_6_10 = field type_vec_reg 0 (span 31 1 ∷ span 6 5 ∷ [])

abbrev pub ap_fp_reg_6_10 : ArgField
ap_fp_reg_6_10 = field type_fp_reg 0 (span 6 5 ∷ [])

abbrev pub ap_fp_reg_16_20 : ArgField
ap_fp_reg_16_20 = field type_fp_reg 0 (span 16 5 ∷ [])

abbrev pub ap_fp_reg_11_15 : ArgField
ap_fp_reg_11_15 = field type_fp_reg 0 (span 11 5 ∷ [])

abbrev pub ap_fp_reg_21_25 : ArgField
ap_fp_reg_21_25 = field type_fp_reg 0 (span 21 5 ∷ [])

abbrev pub ap_imm_unsigned_16_19 : ArgField
ap_imm_unsigned_16_19 = field type_imm_unsigned 0 (span 16 4 ∷ [])

abbrev pub ap_imm_unsigned_15_15 : ArgField
ap_imm_unsigned_15_15 = field type_imm_unsigned 0 (span 15 1 ∷ [])

abbrev pub ap_imm_unsigned_7_14 : ArgField
ap_imm_unsigned_7_14 = field type_imm_unsigned 0 (span 7 8 ∷ [])

abbrev pub ap_imm_unsigned_6_6 : ArgField
ap_imm_unsigned_6_6 = field type_imm_unsigned 0 (span 6 1 ∷ [])

abbrev pub ap_vec_reg_6_10 : ArgField
ap_vec_reg_6_10 = field type_vec_reg 0 (span 6 5 ∷ [])

abbrev pub ap_vec_reg_11_15 : ArgField
ap_vec_reg_11_15 = field type_vec_reg 0 (span 11 5 ∷ [])

abbrev pub ap_vec_reg_16_20 : ArgField
ap_vec_reg_16_20 = field type_vec_reg 0 (span 16 5 ∷ [])

abbrev pub ap_imm_unsigned_12_15 : ArgField
ap_imm_unsigned_12_15 = field type_imm_unsigned 0 (span 12 4 ∷ [])

abbrev pub ap_imm_unsigned_13_15 : ArgField
ap_imm_unsigned_13_15 = field type_imm_unsigned 0 (span 13 3 ∷ [])

abbrev pub ap_imm_unsigned_14_15 : ArgField
ap_imm_unsigned_14_15 = field type_imm_unsigned 0 (span 14 2 ∷ [])

abbrev pub ap_imm_signed_11_15 : ArgField
ap_imm_signed_11_15 = field type_imm_signed 0 (span 11 5 ∷ [])

abbrev pub ap_vec_reg_21_25 : ArgField
ap_vec_reg_21_25 = field type_vec_reg 0 (span 21 5 ∷ [])

abbrev pub ap_imm_unsigned_22_25 : ArgField
ap_imm_unsigned_22_25 = field type_imm_unsigned 0 (span 22 4 ∷ [])

abbrev pub ap_imm_unsigned_11_15 : ArgField
ap_imm_unsigned_11_15 = field type_imm_unsigned 0 (span 11 5 ∷ [])

abbrev pub ap_imm_unsigned_16_16 : ArgField
ap_imm_unsigned_16_16 = field type_imm_unsigned 0 (span 16 1 ∷ [])

abbrev pub ap_imm_unsigned_17_20 : ArgField
ap_imm_unsigned_17_20 = field type_imm_unsigned 0 (span 17 4 ∷ [])

abbrev pub ap_imm_unsigned_22_22 : ArgField
ap_imm_unsigned_22_22 = field type_imm_unsigned 0 (span 22 1 ∷ [])

abbrev pub ap_imm_unsigned_16_21 : ArgField
ap_imm_unsigned_16_21 = field type_imm_unsigned 0 (span 16 6 ∷ [])

abbrev pub ap_imm_unsigned_21_22 : ArgField
ap_imm_unsigned_21_22 = field type_imm_unsigned 0 (span 21 2 ∷ [])

abbrev pub ap_imm_unsigned_11_12 : ArgField
ap_imm_unsigned_11_12 = field type_imm_unsigned 0 (span 11 2 ∷ [])

abbrev pub ap_imm_unsigned_11_11 : ArgField
ap_imm_unsigned_11_11 = field type_imm_unsigned 0 (span 11 1 ∷ [])

abbrev pub ap_vec_reg_30_30_16_20 : ArgField
ap_vec_reg_30_30_16_20 = field type_vec_reg 0 (span 30 1 ∷ span 16 5 ∷ [])

abbrev pub ap_vec_reg_29_29_11_15 : ArgField
ap_vec_reg_29_29_11_15 = field type_vec_reg 0 (span 29 1 ∷ span 11 5 ∷ [])

abbrev pub ap_imm_unsigned_22_23 : ArgField
ap_imm_unsigned_22_23 = field type_imm_unsigned 0 (span 22 2 ∷ [])

abbrev pub ap_vec_reg_28_28_21_25 : ArgField
ap_vec_reg_28_28_21_25 = field type_vec_reg 0 (span 28 1 ∷ span 21 5 ∷ [])

abbrev pub ap_cond_reg_field_29_31 : ArgField
ap_cond_reg_field_29_31 = field type_cond_reg_field 0 (span 29 3 ∷ [])

abbrev pub ap_imm_unsigned_7_10 : ArgField
ap_imm_unsigned_7_10 = field type_imm_unsigned 0 (span 7 4 ∷ [])

abbrev pub ap_imm_unsigned_9_10 : ArgField
ap_imm_unsigned_9_10 = field type_imm_unsigned 0 (span 9 2 ∷ [])

abbrev pub ap_imm_unsigned_31_31 : ArgField
ap_imm_unsigned_31_31 = field type_imm_unsigned 0 (span 31 1 ∷ [])

abbrev pub ap_imm_signed_16_20 : ArgField
ap_imm_signed_16_20 = field type_imm_signed 0 (span 16 5 ∷ [])

abbrev pub ap_imm_unsigned_20_20 : ArgField
ap_imm_unsigned_20_20 = field type_imm_unsigned 0 (span 20 1 ∷ [])

abbrev pub ap_imm_unsigned_8_10 : ArgField
ap_imm_unsigned_8_10 = field type_imm_unsigned 0 (span 8 3 ∷ [])

abbrev pub ap_sp_reg_12_15 : ArgField
ap_sp_reg_12_15 = field type_sp_reg 0 (span 12 4 ∷ [])

abbrev pub ap_imm_unsigned_6_20 : ArgField
ap_imm_unsigned_6_20 = field type_imm_unsigned 0 (span 6 15 ∷ [])

abbrev pub ap_imm_unsigned_11_20 : ArgField
ap_imm_unsigned_11_20 = field type_imm_unsigned 0 (span 11 10 ∷ [])

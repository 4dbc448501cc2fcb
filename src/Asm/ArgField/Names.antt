-- ===== src/Asm/ArgField/Names.antt =====
-- power64asm/decode.go: `ArgType.String` and `ArgType.GoString`.
use power.Base.{ℤ, pos, Bytes, codes, ◌++◌, ◌&&◌, if◌then◌else◌}
use power.Base.Int.{leb_ℤ}
use power.Fmt
use power.Asm.ArgField.{
  ArgType, type_unknown, type_pc_rel, type_label, type_reg, type_cond_reg_bit, type_cond_reg_field,
  type_fp_reg, type_vec_reg, type_sp_reg, type_imm_signed, type_imm_unsigned, type_offset,
  type_last, other,
}

-- The value of the iota.
abbrev pub number : ArgType → ℤ
number type_unknown = pos 0
number type_pc_rel = pos 1
number type_label = pos 2
number type_reg = pos 3
number type_cond_reg_bit = pos 4
number type_cond_reg_field = pos 5
number type_fp_reg = pos 6
number type_vec_reg = pos 7
number type_sp_reg = pos 8
number type_imm_signed = pos 9
number type_imm_unsigned = pos 10
number type_offset = pos 11
number type_last = pos 12
number (other z) = z

abbrev default_string : ArgType → Bytes
default_string t = codes "ArgType(" ++ (Fmt.decimal (number t) ++ codes ")")

unfoldable pub type_string : ArgType → Bytes
type_string type_unknown = codes "Unknown"
type_string type_reg = codes "Reg"
type_string type_cond_reg_bit = codes "CondRegBit"
type_string type_cond_reg_field = codes "CondRegField"
type_string type_fp_reg = codes "FPReg"
type_string type_vec_reg = codes "VecReg"
type_string type_sp_reg = codes "SpReg"
type_string type_imm_signed = codes "ImmSigned"
type_string type_imm_unsigned = codes "ImmUnsigned"
type_string type_pc_rel = codes "PCRel"
type_string type_label = codes "Label"
type_string type_offset = codes "Offset"
type_string type_last = default_string type_last
type_string (other z) = default_string (other z)

unfoldable pub type_go_string : ArgType → Bytes
unfolding type_string
type_go_string t =
    if leb_ℤ (pos 1) (number t) && leb_ℤ (number t) (pos 11)
    then codes "Type" ++ type_string t
    else type_string t

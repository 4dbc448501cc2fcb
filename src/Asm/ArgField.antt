-- ===== src/Asm/ArgField.antt =====
-- power64asm/decode.go, types argField and ArgType: how an argument is read from a word.
pub mod Scale
pub mod Meaning
pub mod Names
pub mod Injective
use power.Base.{
  ℕ, ◌+◌, ◌*◌, ◌%◌, ◌^◌, ◌<◌, ℤ, pos, negsuc, Bytes, codes, ◌++◌, Option, none, some, Outcome, ok,
  ◌>>=◌, ltb, if◌then◌else◌, ◌&&◌, Bool,
}
use power.Base.Int.{to_signed, to_unsigned, shift_left, add_signed, leb_ℤ}
use power.Fmt
use power.Asm.BitFields
use power.Asm.BitFields.{BitFields}
use power.Asm.Inst.{
  Arg, reg, cond_reg, sp_reg, pc_rel, label, imm, offset, r0, f0, v0, cond0lt, cr0,
}

-- The constants in the order of the iota; `other` stands for an int8 that is none of them.
pub data ArgType : Type 0 where
  type_unknown : ArgType
  type_pc_rel : ArgType
  type_label : ArgType
  type_reg : ArgType
  type_cond_reg_bit : ArgType
  type_cond_reg_field : ArgType
  type_fp_reg : ArgType
  type_vec_reg : ArgType
  type_sp_reg : ArgType
  type_imm_signed : ArgType
  type_imm_unsigned : ArgType
  type_offset : ArgType
  type_last : ArgType
  other : ℤ → ArgType

pub record ArgField : Type 0 where
  pub arg_type : ArgType
  pub shift : ℕ
  pub bit_fields : BitFields

-- The switch of `Parse` on the type.
unfoldable pub parse_as : ArgType → ℕ → BitFields → ℕ → Outcome (Option Arg)
parse_as type_reg s bs i = do
  u ← BitFields.parse_unsigned bs i
  ok (some (reg ((r0 + u % 2 ^ 16) % 2 ^ 16)))
parse_as type_cond_reg_bit s bs i = do
  u ← BitFields.parse_unsigned bs i
  ok (some (cond_reg (add_signed 8 cond0lt (to_signed 8 u))))
parse_as type_cond_reg_field s bs i = do
  u ← BitFields.parse_unsigned bs i
  ok (some (cond_reg (add_signed 8 cr0 (to_signed 8 u))))
parse_as type_fp_reg s bs i = do
  u ← BitFields.parse_unsigned bs i
  ok (some (reg ((f0 + u % 2 ^ 16) % 2 ^ 16)))
parse_as type_vec_reg s bs i = do
  u ← BitFields.parse_unsigned bs i
  ok (some (reg ((v0 + u % 2 ^ 16) % 2 ^ 16)))
parse_as type_sp_reg s bs i = do u ← BitFields.parse_unsigned bs i; ok (some (sp_reg (u % 2 ^ 16)))
parse_as type_imm_signed s bs i = do
  z ← BitFields.parse_signed bs i
  ok (some (imm (shift_left 32 z s)))
parse_as type_imm_unsigned s bs i = do
  u ← BitFields.parse_unsigned bs i
  ok (some (imm (to_signed 32 (u * 2 ^ s % 2 ^ 32))))
parse_as type_pc_rel s bs i = do
  z ← BitFields.parse_signed bs i
  ok (some (pc_rel (shift_left 32 z s)))
parse_as type_label s bs i = do
  z ← BitFields.parse_signed bs i
  ok (some (label (to_unsigned 32 (shift_left 32 z s))))
parse_as type_offset s bs i = do
  z ← BitFields.parse_signed bs i
  ok (some (offset (shift_left 32 z s)))
parse_as type_unknown s bs i = ok none
parse_as type_last s bs i = ok none
parse_as (other z) s bs i = ok none

-- `Parse`
unfoldable pub parse : ArgField → ℕ → Outcome (Option Arg)
unfolding parse_as
parse a i = parse_as a.arg_type a.shift a.bit_fields i

-- `ArgType.String`
unfoldable pub type_string : ArgType → Bytes
type_string type_unknown = codes "Unknown"
type_string type_reg = codes "Reg"
type_string type_cond_reg_bit = codes "CondRegBit"
type_string type_cond_reg_field = codes "CondRegField"
type_string type_fp_reg = codes "FPReg"
type_string type_vec_reg = codes "VecReg"
type_string type_sp_reg = codes "SpReg"
type_string type_imm_signed = codes "ImmSigned"
type_string type_imm_unsigned = codes "ImmUnsigned"
type_string type_pc_rel = codes "PCRel"
type_string type_label = codes "Label"
type_string type_offset = codes "Offset"
type_string type_last = codes "ArgType(12)"
type_string (other z) = codes "ArgType(" ++ (Fmt.decimal z ++ codes ")")

-- `int(t)`
unfoldable pub type_number : ArgType → ℤ
type_number type_unknown = pos 0
type_number type_pc_rel = pos 1
type_number type_label = pos 2
type_number type_reg = pos 3
type_number type_cond_reg_bit = pos 4
type_number type_cond_reg_field = pos 5
type_number type_fp_reg = pos 6
type_number type_vec_reg = pos 7
type_number type_sp_reg = pos 8
type_number type_imm_signed = pos 9
type_number type_imm_unsigned = pos 10
type_number type_offset = pos 11
type_number type_last = pos 12
type_number (other z) = z

-- `GoString`: the constant's name in the source, for a type that is one.
unfoldable pub go_string : ArgType → Bytes
unfolding type_string type_number
go_string t =
    if leb_ℤ (pos 1) (type_number t) && leb_ℤ (type_number t) (pos 11)
    then codes "Type" ++ type_string t
    else type_string t

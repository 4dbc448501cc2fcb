-- ===== src/Asm/Witnesses/Fields.antt =====
-- The theorems on fields and names at concrete inputs that meet their hypotheses.
use power.Base.{ok, Returns, false, ◌≡◌, ◌↔◌, arith}
use power.Asm.BitField.{BitField, parse}
use power.Asm.BitField.Value.{IsValid, value, sign_extend, parse-value, parse-Returns}
use power.Asm.BitField.Signed.{parse_signed-value}
use power.Asm.BitField
use power.Asm.BitFields
use power.Asm.BitFields.{BitFields}
use power.Asm.BitFields.Value.{width, joined, parse-joined, parse_signed-joined}
use power.Asm.ArgField
use power.Asm.ArgField.{ArgField}
use power.Asm.ArgField.Meaning.{room, meaning, parse-meaning}
use power.Asm.Fields.{ap_offset_16_31, ap_imm_unsigned_30_30_16_20}
use power.Asm.Op.Part00.{lbz}
use power.Asm.Opstr.{opstr, element, is_empty, op_string}
use power.Asm.Opstr.Names.{op_string-element}

parse-meaning_example :
    ArgField.parse ap_offset_16_31 0x88000017 ≡ ok (meaning ap_offset_16_31 0x88000017)
unfolding width room
parse-meaning_example = parse-meaning ap_offset_16_31 0x88000017 (omega arith)

-- The field sh of a shift: one bit at 30 in front of five at 16.
abbrev sh_fields : BitFields
sh_fields = ap_imm_unsigned_30_30_16_20.bit_fields

parse-joined_example :
    BitFields.parse sh_fields 0x7c00f802 ≡ ok (joined 0 sh_fields 0x7c00f802, width sh_fields)
unfolding width
parse-joined_example = parse-joined sh_fields 0x7c00f802 (omega arith)

parse_signed-joined_example :
    BitFields.parse_signed sh_fields 0x7c00f802
    ≡ ok (sign_extend (width sh_fields) (joined 0 sh_fields 0x7c00f802))
unfolding width
parse_signed-joined_example = parse_signed-joined sh_fields 0x7c00f802 (omega arith) (omega arith)

abbrev low_half : BitField
low_half = record { offs = 16; bits = 16 }

-- The whole word: the mask's `1 << 32` is 0 in uint32, and 0 - 1 is all ones.
abbrev whole_word : BitField
whole_word = record { offs = 0; bits = 32 }

parse-value_example : parse whole_word 0x8800ffff ≡ ok (value whole_word 0x8800ffff)
parse-value_example = parse-value whole_word 0x8800ffff (omega arith)

parse-Returns_example : Returns (parse low_half 0x8800ffff) ↔ IsValid low_half
parse-Returns_example = parse-Returns low_half 0x8800ffff (omega arith)

parse_signed-value_example :
    BitField.parse_signed low_half 0x8800ffff ≡ ok (sign_extend 16 (value low_half 0x8800ffff))
parse_signed-value_example = parse_signed-value low_half 0x8800ffff (omega arith)

op_string-element_example :
    (op_string lbz ≡ element opstr lbz) × (is_empty (element opstr lbz) ≡ false)
op_string-element_example = op_string-element lbz (omega arith) (omega arith)

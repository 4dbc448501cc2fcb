-- ===== src/Asm/Witnesses.antt =====
-- The theorems on `Decode` at concrete inputs that meet their hypotheses.
mod Printers
mod Fields
mod Word
use power.Base.{
  ℕ, ◌≤◌, ◌<◌, Bytes, List, [], ◌∷◌, ◌≢◌, ◌++◌, none, some, length, drop, ok, Returns, All, all,
  all→All, Bool, true, false, not, bit_and, ◌==◌, pos, ◌≡◌, ◌↔◌, refl, arith,
}
use power.Asm.BitField
use power.Asm.BitFields
use power.Asm.ArgField
use power.Asm.Inst.{Inst, reg, offset, imm}
use power.Asm.InstFormat.{InstFormat, rule}
use power.Asm.Fields.{ap_reg_11_15, ap_reg_6_10}
use power.Asm.Formats.{inst_formats}
use power.Asm.Op.Part00.{lbz, cntlzw}
use power.Asm.Decode.{
  err_short, err_unknown, big_endian_u32, big_endian, take, Decoded, make_cover, decode,
}
use power.Asm.Decode.Loops.{Matches, First, instruction, start}
use power.Asm.Decode.Correct.{decode-First, decode_unknown, decode-Returns, decode_prefix}
use power.Asm.Decode.Inversion.{IsPrintable, decode_sound, decode-IsPrintable}
use power.Asm.Opstr.{opstr, element, is_empty, op_string}
use power.Asm.Op.Part13.{dcread, icbtls}
use power.Asm.Decode.Shadow.{is_shadowed, decode-is_shadowed}
use power.Asm.Decode.Mnemonic.{decode-op_string}

-- cntlzw r0,r0 is the first rule of the table.
abbrev pub cntlzw_bytes : Bytes
cntlzw_bytes = 0x7c ∷ 0x00 ∷ 0x00 ∷ 0x34 ∷ []

abbrev pub cntlzw_rule : InstFormat
cntlzw_rule = rule cntlzw 0xfc0007ff 0x7c000034 0xf800 (ap_reg_11_15 ∷ ap_reg_6_10 ∷ [])

pub cntlzw-First : First inst_formats 0x7c000034 cntlzw_rule
unfolding inst_formats
cntlzw-First = ([], drop 1 inst_formats, refl, tt, refl)

decode-First_example :
    decode none cntlzw_bytes big_endian
    ≡ ok (record { inst = instruction cntlzw_rule 0x7c000034; err = none; cover = make_cover none })
unfolding big_endian_u32
decode-First_example =
    decode-First none cntlzw_bytes big_endian 0x7c000034 cntlzw_rule (omega arith) refl cntlzw-First

-- lbz r0,23(0)
abbrev pub lbz_bytes : Bytes
lbz_bytes = 0x88 ∷ 0x00 ∷ 0x00 ∷ 0x17 ∷ []

abbrev pub lbz_inst : Inst
lbz_inst = record {
  op = lbz;
  enc = 0x88000017;
  len = 4;
  args = some (reg 1) ∷ some (offset (pos 23)) ∷ some (reg 1) ∷ none ∷ none ∷ [];
}

abbrev pub lbz_decoded : Decoded
lbz_decoded = record { inst = lbz_inst; err = none; cover = make_cover none }

pub lbz_run : decode none lbz_bytes big_endian ≡ ok lbz_decoded
unfolding decode inst_formats big_endian_u32 ArgField.parse BitFields.parse_unsigned
    BitFields.parse_signed BitFields.parse BitField.parse
lbz_run = refl

decode_sound_example :
    (ui : ℕ) × (f : InstFormat) × (4 ≤ length lbz_bytes)
    × (big_endian.uint32 (take 4 lbz_bytes) ≡ ok ui)
    × First inst_formats ui f
    × (lbz_inst ≡ instruction f ui)
decode_sound_example = decode_sound none lbz_bytes big_endian lbz_decoded lbz_run refl

decode-IsPrintable_example : IsPrintable lbz_inst
decode-IsPrintable_example = decode-IsPrintable none lbz_bytes big_endian lbz_decoded lbz_run refl

reads_four : (s : Bytes) → length s ≡ 4 → Returns (big_endian.uint32 s)
unfolding big_endian_u32
reads_four [] h = absurd (omega arith)
reads_four (a ∷ []) h = absurd (omega arith)
reads_four (a ∷ b ∷ []) h = absurd (omega arith)
reads_four (a ∷ b ∷ c ∷ []) h = absurd (omega arith)
reads_four (a ∷ b ∷ c ∷ d ∷ rest) h = (_, refl)

abbrev short_bytes : Bytes
short_bytes = 0x88 ∷ []

decode-Returns_example :
    (d : Decoded) × (decode none short_bytes big_endian ≡ ok d)
    × ((d.err ≡ some err_short) ↔ (length short_bytes < 4))
decode-Returns_example = decode-Returns none short_bytes big_endian reads_four

abbrev zero_bytes : Bytes
zero_bytes = 0 ∷ 0 ∷ 0 ∷ 0 ∷ []

unfoldable misses_zero : InstFormat → Bool
misses_zero f = not (bit_and 0 f.mask == f.value)

misses→All :
    (table : List InstFormat)
    → All (λ f. misses_zero f ≡ true) table
    → All (λ f. ¬ Matches 0 f) table
unfolding misses_zero
misses→All [] h = tt
misses→All (f ∷ rest) h = ((λ m. ground arith), misses→All rest h.1)

zero_missed : all misses_zero inst_formats ≡ true
unfolding all misses_zero inst_formats
zero_missed = refl

decode_unknown_example :
    decode none zero_bytes big_endian
    ≡ ok (record { inst = start 0; err = some err_unknown; cover = make_cover none })
unfolding big_endian_u32
decode_unknown_example =
    decode_unknown none zero_bytes big_endian 0 (omega arith) refl
      (misses→All inst_formats (all→All misses_zero inst_formats zero_missed))

decode_prefix_example :
    decode none (lbz_bytes ++ (0x99 ∷ [])) big_endian ≡ decode none lbz_bytes big_endian
decode_prefix_example = decode_prefix none lbz_bytes big_endian (0x99 ∷ []) (omega arith)

decode-op_string_example :
    (op_string lbz ≡ element opstr lbz) × (is_empty (element opstr lbz) ≡ false)
decode-op_string_example = decode-op_string none lbz_bytes big_endian lbz_decoded lbz_run refl

dcread_shadowed : is_shadowed dcread ≡ true
unfolding is_shadowed inst_formats
dcread_shadowed = refl

-- The rule for icbtls stands in front of the one for dcread, with the same mask and value.
abbrev icbtls_bytes : Bytes
icbtls_bytes = 0x7c ∷ 0x00 ∷ 0x03 ∷ 0xcc ∷ []

abbrev icbtls_decoded : Decoded
icbtls_decoded = record {
  inst = record {
    op = icbtls;
    enc = 0x7c0003cc;
    len = 4;
    args = some (imm (pos 0)) ∷ some (reg 1) ∷ some (reg 1) ∷ none ∷ none ∷ [];
  };
  err = none;
  cover = make_cover none;
}

icbtls_run : decode none icbtls_bytes big_endian ≡ ok icbtls_decoded
unfolding decode inst_formats big_endian_u32 ArgField.parse BitFields.parse_unsigned
    BitFields.parse_signed BitFields.parse BitField.parse
icbtls_run = refl

decode-is_shadowed_example : icbtls_decoded.inst.op ≢ dcread
decode-is_shadowed_example =
    decode-is_shadowed none icbtls_bytes big_endian icbtls_decoded dcread dcread_shadowed icbtls_run
      refl

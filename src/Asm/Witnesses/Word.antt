-- ===== src/Asm/Witnesses/Word.antt =====
-- The theorem on the words of decoded instructions at inputs that meet its hypotheses.
use power.Base.{Bytes, [], ◌∷◌, none, some, ok, ◌≡◌, ◌≢◌, drop, refl, arith}
use power.Asm.BitField
use power.Asm.BitFields
use power.Asm.ArgField
use power.Asm.Inst.{reg}
use power.Asm.Op.Part00.{cntlzw}
use power.Asm.Formats.{inst_formats}
use power.Asm.Decode.{big_endian_u32, big_endian, Decoded, make_cover, decode}
use power.Asm.Decode.Loops.{First}
use power.Asm.Decode.Word.{decode-enc}
use power.Asm.Witnesses.{cntlzw_bytes, cntlzw_rule, cntlzw-First}

abbrev cntlzw_decoded : Decoded
cntlzw_decoded = record {
  inst = record {
    op = cntlzw;
    enc = 0x7c000034;
    len = 4;
    args = some (reg 1) ∷ some (reg 1) ∷ none ∷ none ∷ none ∷ [];
  };
  err = none;
  cover = make_cover none;
}

-- cntlzw r0,r1
abbrev other_bytes : Bytes
other_bytes = 0x7c ∷ 0x20 ∷ 0x00 ∷ 0x34 ∷ []

abbrev other_decoded : Decoded
other_decoded = record {
  inst = record {
    op = cntlzw;
    enc = 0x7c200034;
    len = 4;
    args = some (reg 1) ∷ some (reg 2) ∷ none ∷ none ∷ none ∷ [];
  };
  err = none;
  cover = make_cover none;
}

other-First : First inst_formats 0x7c200034 cntlzw_rule
unfolding inst_formats
other-First = ([], drop 1 inst_formats, refl, tt, refl)

cntlzw_run : decode none cntlzw_bytes big_endian ≡ ok cntlzw_decoded
unfolding decode inst_formats big_endian_u32 ArgField.parse BitFields.parse_unsigned
    BitFields.parse_signed BitFields.parse BitField.parse
cntlzw_run = refl

other_run : decode none other_bytes big_endian ≡ ok other_decoded
unfolding decode inst_formats big_endian_u32 ArgField.parse BitFields.parse_unsigned
    BitFields.parse_signed BitFields.parse BitField.parse
other_run = refl

decode-enc_example : cntlzw_decoded.inst.args ≢ other_decoded.inst.args
decode-enc_example =
    decode-enc none cntlzw_bytes other_bytes big_endian cntlzw_decoded other_decoded cntlzw_rule
      cntlzw_run other_run refl refl cntlzw-First other-First (omega arith) (omega arith)
      (omega arith) (omega arith) refl (omega arith)

-- ===== src/Asm/Tests.antt =====
-- Runs of the decoder and the printers, among them lines of power64asm/testdata/decode.txt.
use power.Base.{Bytes, codes, [], ◌∷◌, none, Outcome, ok, panic, message, ◌>>=◌, ◌≡◌, refl}
use power.Asm.BitField.{BitField}
use power.Asm.BitField
use power.Asm.BitFields
use power.Asm.ArgField
use power.Asm.Inst.{reg_string, inst_string}
use power.Asm.Formats.{inst_formats}
use power.Asm.Opstr
use power.Asm.Decode.{big_endian_u32, big_endian, Decoded, decode}
use power.Asm.Gnu.{gnu_syntax}
use power.Asm.Plan9.{plan9_syntax, plan9_op_map, plan9_op, dst_last}
use power.Asm.LoadStore.{is_load_store_op, remove_arg, member}
use power.Fmt
use power.Strings

-- Decoding and printing; the lines name all that a run computes with.
run : Bytes → Outcome Decoded
unfolding decode inst_formats big_endian_u32 ArgField.parse BitFields.parse_unsigned
    BitFields.parse_signed BitFields.parse BitField.parse
run src = decode none src big_endian

as_gnu : Bytes → Outcome Bytes
unfolding run gnu_syntax Opstr.op_string Opstr.opstr is_load_store_op remove_arg reg_string
    Fmt.decimal Fmt.hex Fmt.hex_plus Strings.has_prefix
as_gnu src = do d ← run src; gnu_syntax d.inst

as_plan9 : Bytes → Outcome Bytes
unfolding run plan9_syntax plan9_op_map plan9_op member dst_last Opstr.op_string Opstr.opstr
    is_load_store_op remove_arg reg_string Fmt.decimal Fmt.hex Strings.has_prefix Strings.to_upper
    Strings.join Strings.str_eq
as_plan9 src = do d ← run src; plan9_syntax d.inst 0 none

as_string : Bytes → Outcome Bytes
unfolding run inst_string Opstr.op_string Opstr.opstr Fmt.decimal Fmt.decimal_plus Fmt.hex
    Fmt.hex_plus
as_string src = do d ← run src; inst_string d.inst

gnu_lbz : as_gnu (0x88 ∷ 0x00 ∷ 0x00 ∷ 0x17 ∷ []) ≡ ok (codes "lbz r0,23(0)")
unfolding as_gnu
gnu_lbz = refl

gnu_stb : as_gnu (0x9c ∷ 0x81 ∷ 0x56 ∷ 0xe3 ∷ []) ≡ ok (codes "stbu r4,22243(r1)")
unfolding as_gnu
gnu_stb = refl

gnu_lfsu : as_gnu (0xc6 ∷ 0x1b ∷ 0xb7 ∷ 0x30 ∷ []) ≡ ok (codes "lfsu f16,-18640(r27)")
unfolding as_gnu
gnu_lfsu = refl

gnu_ba : as_gnu (0x4a ∷ 0xba ∷ 0xa8 ∷ 0x8a ∷ []) ≡ ok (codes "ba 0xfebaa888")
unfolding as_gnu
gnu_ba = refl

gnu_mfspr : as_gnu (0x7d ∷ 0x8f ∷ 0xc2 ∷ 0xa6 ∷ []) ≡ ok (codes "mfspr r12,783")
unfolding as_gnu
gnu_mfspr = refl

gnu_bc : as_gnu (0x42 ∷ 0x09 ∷ 0x3d ∷ 0x10 ∷ []) ≡ ok (codes "bc 16,4*cr2+gt,.+0x3d10")
unfolding as_gnu
gnu_bc = refl

gnu_xvcvdpuxws : as_gnu (0xf3 ∷ 0xd7 ∷ 0x43 ∷ 0x22 ∷ []) ≡ ok (codes "xvcvdpuxws v30,v40")
unfolding as_gnu
gnu_xvcvdpuxws = refl

gnu_cmpwi : as_gnu (0x2c ∷ 0x1c ∷ 0x81 ∷ 0xb4 ∷ []) ≡ ok (codes "cmpwi r28,-32332")
unfolding as_gnu
gnu_cmpwi = refl

plan9_lbz : as_plan9 (0x88 ∷ 0x00 ∷ 0x00 ∷ 0x17 ∷ []) ≡ ok (codes "MOVBZ 23(0), R0")
unfolding as_plan9
plan9_lbz = refl

-- bdnz has BO 16.
plan9_bdnz : as_plan9 (0x42 ∷ 0x00 ∷ 0xff ∷ 0xfc ∷ []) ≡ panic (message (codes "unreachable"))
unfolding as_plan9
plan9_bdnz = refl

string_lbz : as_string (0x88 ∷ 0x00 ∷ 0x00 ∷ 0x17 ∷ []) ≡ ok (codes "lbz r0, +23, r0")
unfolding as_string
string_lbz = refl

-- The operand T of tlbilx, bits 9 and 10, is in no field.
gnu_tlbilx : as_gnu (0x7c ∷ 0x00 ∷ 0x00 ∷ 0x24 ∷ []) ≡ ok (codes "tlbilx r0,r0")
unfolding as_gnu
gnu_tlbilx = refl

gnu_tlbilx_other : as_gnu (0x7c ∷ 0x20 ∷ 0x00 ∷ 0x24 ∷ []) ≡ ok (codes "tlbilx r0,r0")
unfolding as_gnu
gnu_tlbilx_other = refl

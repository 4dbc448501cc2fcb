-- ===== src/Asm/Formats/Part00.antt =====
-- power64asm/tables.go: the rules of instFormats from CNTLZW to STDBRX.
use mathlib.Core.List.{List, [], ◌∷◌}
use power.Asm.InstFormat.{InstFormat, rule}
use power.Asm.Fields.{
  ap_reg_11_15, ap_reg_6_10, ap_pc_rel_6_29_shift2, ap_label_6_29_shift2, ap_imm_unsigned_6_10,
  ap_cond_reg_bit_11_15, ap_pc_rel_16_29_shift2, ap_label_16_29_shift2, ap_imm_unsigned_19_20,
  ap_cond_reg_bit_6_10, ap_cond_reg_bit_16_20, ap_cond_reg_field_6_8, ap_cond_reg_field_11_13,
  ap_imm_unsigned_20_26, ap_sp_reg_11_20, ap_offset_16_31, ap_reg_16_20, ap_offset_16_29_shift2,
  ap_offset_16_27_shift4,
}
use power.Asm.Op.Part00.{
  cntlzw, cntlzw_, b, ba, bl, bla, bc, bca, bcl, bcla, bclr, bclrl, bcctr, bcctrl, bctar, bctarl,
  crand, cror, crnand, crxor, crnor, crandc, mcrf, creqv, crorc, sc, clrbhrb, mfbhrbe, lbz, lbzu,
  lbzx, lbzux, lhz, lhzu, lhzx, lhzux, lha, lhau, lhax, lhaux, lwz, lwzu, lwzx, lwzux, lwa, lwax,
  lwaux, ld, ldu, ldx, ldux, stb, stbu, stbx, stbux, sth, sthu, sthx, sthux, stw, stwu, stwx, stwux,
  std, stdu, stdx, stdux, lq, stq, lhbrx, lwbrx, sthbrx, stwbrx, ldbrx, stdbrx,
}

unfoldable pub formats00 : List InstFormat
formats00 =
    rule cntlzw 0xfc0007ff 0x7c000034 0xf800 (ap_reg_11_15 ∷ ap_reg_6_10 ∷ [])
    ∷ rule cntlzw_ 0xfc0007ff 0x7c000035 0xf800 (ap_reg_11_15 ∷ ap_reg_6_10 ∷ [])
    ∷ rule b 0xfc000003 0x48000000 0x0 (ap_pc_rel_6_29_shift2 ∷ [])
    ∷ rule ba 0xfc000003 0x48000002 0x0 (ap_label_6_29_shift2 ∷ [])
    ∷ rule bl 0xfc000003 0x48000001 0x0 (ap_pc_rel_6_29_shift2 ∷ [])
    ∷ rule bla 0xfc000003 0x48000003 0x0 (ap_label_6_29_shift2 ∷ [])
    ∷ rule bc 0xfc000003 0x40000000 0x0
        (ap_imm_unsigned_6_10 ∷ ap_cond_reg_bit_11_15 ∷ ap_pc_rel_16_29_shift2 ∷ [])
    ∷ rule bca 0xfc000003 0x40000002 0x0
        (ap_imm_unsigned_6_10 ∷ ap_cond_reg_bit_11_15 ∷ ap_label_16_29_shift2 ∷ [])
    ∷ rule bcl 0xfc000003 0x40000001 0x0
        (ap_imm_unsigned_6_10 ∷ ap_cond_reg_bit_11_15 ∷ ap_pc_rel_16_29_shift2 ∷ [])
    ∷ rule bcla 0xfc000003 0x40000003 0x0
        (ap_imm_unsigned_6_10 ∷ ap_cond_reg_bit_11_15 ∷ ap_label_16_29_shift2 ∷ [])
    ∷ rule bclr 0xfc0007ff 0x4c000020 0xe000
        (ap_imm_unsigned_6_10 ∷ ap_cond_reg_bit_11_15 ∷ ap_imm_unsigned_19_20 ∷ [])
    ∷ rule bclrl 0xfc0007ff 0x4c000021 0xe000
        (ap_imm_unsigned_6_10 ∷ ap_cond_reg_bit_11_15 ∷ ap_imm_unsigned_19_20 ∷ [])
    ∷ rule bcctr 0xfc0007ff 0x4c000420 0xe000
        (ap_imm_unsigned_6_10 ∷ ap_cond_reg_bit_11_15 ∷ ap_imm_unsigned_19_20 ∷ [])
    ∷ rule bcctrl 0xfc0007ff 0x4c000421 0xe000
        (ap_imm_unsigned_6_10 ∷ ap_cond_reg_bit_11_15 ∷ ap_imm_unsigned_19_20 ∷ [])
    ∷ rule bctar 0xfc0007ff 0x4c000460 0xe000
        (ap_imm_unsigned_6_10 ∷ ap_cond_reg_bit_11_15 ∷ ap_imm_unsigned_19_20 ∷ [])
    ∷ rule bctarl 0xfc0007ff 0x4c000461 0xe000
        (ap_imm_unsigned_6_10 ∷ ap_cond_reg_bit_11_15 ∷ ap_imm_unsigned_19_20 ∷ [])
    ∷ rule crand 0xfc0007fe 0x4c000202 0x1
        (ap_cond_reg_bit_6_10 ∷ ap_cond_reg_bit_11_15 ∷ ap_cond_reg_bit_16_20 ∷ [])
    ∷ rule cror 0xfc0007fe 0x4c000382 0x1
        (ap_cond_reg_bit_6_10 ∷ ap_cond_reg_bit_11_15 ∷ ap_cond_reg_bit_16_20 ∷ [])
    ∷ rule crnand 0xfc0007fe 0x4c0001c2 0x1
        (ap_cond_reg_bit_6_10 ∷ ap_cond_reg_bit_11_15 ∷ ap_cond_reg_bit_16_20 ∷ [])
    ∷ rule crxor 0xfc0007fe 0x4c000182 0x1
        (ap_cond_reg_bit_6_10 ∷ ap_cond_reg_bit_11_15 ∷ ap_cond_reg_bit_16_20 ∷ [])
    ∷ rule crnor 0xfc0007fe 0x4c000042 0x1
        (ap_cond_reg_bit_6_10 ∷ ap_cond_reg_bit_11_15 ∷ ap_cond_reg_bit_16_20 ∷ [])
    ∷ rule crandc 0xfc0007fe 0x4c000102 0x1
        (ap_cond_reg_bit_6_10 ∷ ap_cond_reg_bit_11_15 ∷ ap_cond_reg_bit_16_20 ∷ [])
    ∷ rule mcrf 0xfc0007fe 0x4c000000 0x63f801
        (ap_cond_reg_field_6_8 ∷ ap_cond_reg_field_11_13 ∷ [])
    ∷ rule creqv 0xfc0007fe 0x4c000242 0x1
        (ap_cond_reg_bit_6_10 ∷ ap_cond_reg_bit_11_15 ∷ ap_cond_reg_bit_16_20 ∷ [])
    ∷ rule crorc 0xfc0007fe 0x4c000342 0x1
        (ap_cond_reg_bit_6_10 ∷ ap_cond_reg_bit_11_15 ∷ ap_cond_reg_bit_16_20 ∷ [])
    ∷ rule sc 0xfc000002 0x44000002 0x3fff01d (ap_imm_unsigned_20_26 ∷ [])
    ∷ rule clrbhrb 0xfc0007fe 0x7c00035c 0x3fff801 ([])
    ∷ rule mfbhrbe 0xfc0007fe 0x7c00025c 0x1 (ap_reg_6_10 ∷ ap_sp_reg_11_20 ∷ [])
    ∷ rule lbz 0xfc000000 0x88000000 0x0 (ap_reg_6_10 ∷ ap_offset_16_31 ∷ ap_reg_11_15 ∷ [])
    ∷ rule lbzu 0xfc000000 0x8c000000 0x0 (ap_reg_6_10 ∷ ap_offset_16_31 ∷ ap_reg_11_15 ∷ [])
    ∷ rule lbzx 0xfc0007fe 0x7c0000ae 0x1 (ap_reg_6_10 ∷ ap_reg_11_15 ∷ ap_reg_16_20 ∷ [])
    ∷ rule lbzux 0xfc0007fe 0x7c0000ee 0x1 (ap_reg_6_10 ∷ ap_reg_11_15 ∷ ap_reg_16_20 ∷ [])
    ∷ rule lhz 0xfc000000 0xa0000000 0x0 (ap_reg_6_10 ∷ ap_offset_16_31 ∷ ap_reg_11_15 ∷ [])
    ∷ rule lhzu 0xfc000000 0xa4000000 0x0 (ap_reg_6_10 ∷ ap_offset_16_31 ∷ ap_reg_11_15 ∷ [])
    ∷ rule lhzx 0xfc0007fe 0x7c00022e 0x1 (ap_reg_6_10 ∷ ap_reg_11_15 ∷ ap_reg_16_20 ∷ [])
    ∷ rule lhzux 0xfc0007fe 0x7c00026e 0x1 (ap_reg_6_10 ∷ ap_reg_11_15 ∷ ap_reg_16_20 ∷ [])
    ∷ rule lha 0xfc000000 0xa8000000 0x0 (ap_reg_6_10 ∷ ap_offset_16_31 ∷ ap_reg_11_15 ∷ [])
    ∷ rule lhau 0xfc000000 0xac000000 0x0 (ap_reg_6_10 ∷ ap_offset_16_31 ∷ ap_reg_11_15 ∷ [])
    ∷ rule lhax 0xfc0007fe 0x7c0002ae 0x1 (ap_reg_6_10 ∷ ap_reg_11_15 ∷ ap_reg_16_20 ∷ [])
    ∷ rule lhaux 0xfc0007fe 0x7c0002ee 0x1 (ap_reg_6_10 ∷ ap_reg_11_15 ∷ ap_reg_16_20 ∷ [])
    ∷ rule lwz 0xfc000000 0x80000000 0x0 (ap_reg_6_10 ∷ ap_offset_16_31 ∷ ap_reg_11_15 ∷ [])
    ∷ rule lwzu 0xfc000000 0x84000000 0x0 (ap_reg_6_10 ∷ ap_offset_16_31 ∷ ap_reg_11_15 ∷ [])
    ∷ rule lwzx 0xfc0007fe 0x7c00002e 0x1 (ap_reg_6_10 ∷ ap_reg_11_15 ∷ ap_reg_16_20 ∷ [])
    ∷ rule lwzux 0xfc0007fe 0x7c00006e 0x1 (ap_reg_6_10 ∷ ap_reg_11_15 ∷ ap_reg_16_20 ∷ [])
    ∷ rule lwa 0xfc000003 0xe8000002 0x0 (ap_reg_6_10 ∷ ap_offset_16_29_shift2 ∷ ap_reg_11_15 ∷ [])
    ∷ rule lwax 0xfc0007fe 0x7c0002aa 0x1 (ap_reg_6_10 ∷ ap_reg_11_15 ∷ ap_reg_16_20 ∷ [])
    ∷ rule lwaux 0xfc0007fe 0x7c0002ea 0x1 (ap_reg_6_10 ∷ ap_reg_11_15 ∷ ap_reg_16_20 ∷ [])
    ∷ rule ld 0xfc000003 0xe8000000 0x0 (ap_reg_6_10 ∷ ap_offset_16_29_shift2 ∷ ap_reg_11_15 ∷ [])
    ∷ rule ldu 0xfc000003 0xe8000001 0x0 (ap_reg_6_10 ∷ ap_offset_16_29_shift2 ∷ ap_reg_11_15 ∷ [])
    ∷ rule ldx 0xfc0007fe 0x7c00002a 0x1 (ap_reg_6_10 ∷ ap_reg_11_15 ∷ ap_reg_16_20 ∷ [])
    ∷ rule ldux 0xfc0007fe 0x7c00006a 0x1 (ap_reg_6_10 ∷ ap_reg_11_15 ∷ ap_reg_16_20 ∷ [])
    ∷ rule stb 0xfc000000 0x98000000 0x0 (ap_reg_6_10 ∷ ap_offset_16_31 ∷ ap_reg_11_15 ∷ [])
    ∷ rule stbu 0xfc000000 0x9c000000 0x0 (ap_reg_6_10 ∷ ap_offset_16_31 ∷ ap_reg_11_15 ∷ [])
    ∷ rule stbx 0xfc0007fe 0x7c0001ae 0x1 (ap_reg_6_10 ∷ ap_reg_11_15 ∷ ap_reg_16_20 ∷ [])
    ∷ rule stbux 0xfc0007fe 0x7c0001ee 0x1 (ap_reg_6_10 ∷ ap_reg_11_15 ∷ ap_reg_16_20 ∷ [])
    ∷ rule sth 0xfc000000 0xb0000000 0x0 (ap_reg_6_10 ∷ ap_offset_16_31 ∷ ap_reg_11_15 ∷ [])
    ∷ rule sthu 0xfc000000 0xb4000000 0x0 (ap_reg_6_10 ∷ ap_offset_16_31 ∷ ap_reg_11_15 ∷ [])
    ∷ rule sthx 0xfc0007fe 0x7c00032e 0x1 (ap_reg_6_10 ∷ ap_reg_11_15 ∷ ap_reg_16_20 ∷ [])
    ∷ rule sthux 0xfc0007fe 0x7c00036e 0x1 (ap_reg_6_10 ∷ ap_reg_11_15 ∷ ap_reg_16_20 ∷ [])
    ∷ rule stw 0xfc000000 0x90000000 0x0 (ap_reg_6_10 ∷ ap_offset_16_31 ∷ ap_reg_11_15 ∷ [])
    ∷ rule stwu 0xfc000000 0x94000000 0x0 (ap_reg_6_10 ∷ ap_offset_16_31 ∷ ap_reg_11_15 ∷ [])
    ∷ rule stwx 0xfc0007fe 0x7c00012e 0x1 (ap_reg_6_10 ∷ ap_reg_11_15 ∷ ap_reg_16_20 ∷ [])
    ∷ rule stwux 0xfc0007fe 0x7c00016e 0x1 (ap_reg_6_10 ∷ ap_reg_11_15 ∷ ap_reg_16_20 ∷ [])
    ∷ rule std 0xfc000003 0xf8000000 0x0 (ap_reg_6_10 ∷ ap_offset_16_29_shift2 ∷ ap_reg_11_15 ∷ [])
    ∷ rule stdu 0xfc000003 0xf8000001 0x0 (ap_reg_6_10 ∷ ap_offset_16_29_shift2 ∷ ap_reg_11_15 ∷ [])
    ∷ rule stdx 0xfc0007fe 0x7c00012a 0x1 (ap_reg_6_10 ∷ ap_reg_11_15 ∷ ap_reg_16_20 ∷ [])
    ∷ rule stdux 0xfc0007fe 0x7c00016a 0x1 (ap_reg_6_10 ∷ ap_reg_11_15 ∷ ap_reg_16_20 ∷ [])
    ∷ rule lq 0xfc000000 0xe0000000 0xf (ap_reg_6_10 ∷ ap_offset_16_27_shift4 ∷ ap_reg_11_15 ∷ [])
    ∷ rule stq 0xfc000003 0xf8000002 0x0 (ap_reg_6_10 ∷ ap_offset_16_29_shift2 ∷ ap_reg_11_15 ∷ [])
    ∷ rule lhbrx 0xfc0007fe 0x7c00062c 0x1 (ap_reg_6_10 ∷ ap_reg_11_15 ∷ ap_reg_16_20 ∷ [])
    ∷ rule lwbrx 0xfc0007fe 0x7c00042c 0x1 (ap_reg_6_10 ∷ ap_reg_11_15 ∷ ap_reg_16_20 ∷ [])
    ∷ rule sthbrx 0xfc0007fe 0x7c00072c 0x1 (ap_reg_6_10 ∷ ap_reg_11_15 ∷ ap_reg_16_20 ∷ [])
    ∷ rule stwbrx 0xfc0007fe 0x7c00052c 0x1 (ap_reg_6_10 ∷ ap_reg_11_15 ∷ ap_reg_16_20 ∷ [])
    ∷ rule ldbrx 0xfc0007fe 0x7c000428 0x1 (ap_reg_6_10 ∷ ap_reg_11_15 ∷ ap_reg_16_20 ∷ [])
    ∷ rule stdbrx 0xfc0007fe 0x7c000528 0x1 (ap_reg_6_10 ∷ ap_reg_11_15 ∷ ap_reg_16_20 ∷ [])
    ∷ []

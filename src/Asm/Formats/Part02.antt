-- ===== src/Asm/Formats/Part02.antt =====
-- power64asm/tables.go: the rules of instFormats from DIVWE_ to PRTYW.
use mathlib.Core.List.{List, [], ◌∷◌}
use power.Asm.InstFormat.{InstFormat, rule}
use power.Asm.Fields.{
  ap_reg_6_10, ap_reg_11_15, ap_reg_16_20, ap_cond_reg_field_6_8, ap_imm_signed_16_31,
  ap_imm_unsigned_16_31, ap_imm_unsigned_6_10, ap_cond_reg_bit_21_25,
}
use power.Asm.Op.Part01.{
  divwe_, divweo, divweo_, divweu, divweu_, divweuo, divweuo_, mulld, mulld_, mulldo, mulldo_,
  mulhdu, mulhdu_, mulhd, mulhd_, divd, divd_, divdo, divdo_, divdu, divdu_, divduo, divduo_, divde,
  divde_, divdeo, divdeo_, divdeu, divdeu_, divdeuo, divdeuo_, cmpwi, cmpdi, cmpw, cmpd, cmplwi,
  cmpldi, cmplw, cmpld, twi,
}
use power.Asm.Op.Part02.{
  tw, tdi, isel, td, andi_, andis_, ori, oris, xori, xoris, and, and_, xor, xor_, nand, nand_, or,
  or_, nor, nor_, andc, andc_, extsb, extsb_, eqv, eqv_, orc, orc_, extsh, extsh_, cmpb, popcntb,
  popcntw, prtyd, prtyw,
}

unfoldable pub formats02 : List InstFormat
formats02 =
    rule divwe_ 0xfc0007ff 0x7c000357 0x0 (ap_reg_6_10 ∷ ap_reg_11_15 ∷ ap_reg_16_20 ∷ [])
    ∷ rule divweo 0xfc0007ff 0x7c000756 0x0 (ap_reg_6_10 ∷ ap_reg_11_15 ∷ ap_reg_16_20 ∷ [])
    ∷ rule divweo_ 0xfc0007ff 0x7c000757 0x0 (ap_reg_6_10 ∷ ap_reg_11_15 ∷ ap_reg_16_20 ∷ [])
    ∷ rule divweu 0xfc0007ff 0x7c000316 0x0 (ap_reg_6_10 ∷ ap_reg_11_15 ∷ ap_reg_16_20 ∷ [])
    ∷ rule divweu_ 0xfc0007ff 0x7c000317 0x0 (ap_reg_6_10 ∷ ap_reg_11_15 ∷ ap_reg_16_20 ∷ [])
    ∷ rule divweuo 0xfc0007ff 0x7c000716 0x0 (ap_reg_6_10 ∷ ap_reg_11_15 ∷ ap_reg_16_20 ∷ [])
    ∷ rule divweuo_ 0xfc0007ff 0x7c000717 0x0 (ap_reg_6_10 ∷ ap_reg_11_15 ∷ ap_reg_16_20 ∷ [])
    ∷ rule mulld 0xfc0007ff 0x7c0001d2 0x0 (ap_reg_6_10 ∷ ap_reg_11_15 ∷ ap_reg_16_20 ∷ [])
    ∷ rule mulld_ 0xfc0007ff 0x7c0001d3 0x0 (ap_reg_6_10 ∷ ap_reg_11_15 ∷ ap_reg_16_20 ∷ [])
    ∷ rule mulldo 0xfc0007ff 0x7c0005d2 0x0 (ap_reg_6_10 ∷ ap_reg_11_15 ∷ ap_reg_16_20 ∷ [])
    ∷ rule mulldo_ 0xfc0007ff 0x7c0005d3 0x0 (ap_reg_6_10 ∷ ap_reg_11_15 ∷ ap_reg_16_20 ∷ [])
    ∷ rule mulhdu 0xfc0003ff 0x7c000012 0x400 (ap_reg_6_10 ∷ ap_reg_11_15 ∷ ap_reg_16_20 ∷ [])
    ∷ rule mulhdu_ 0xfc0003ff 0x7c000013 0x400 (ap_reg_6_10 ∷ ap_reg_11_15 ∷ ap_reg_16_20 ∷ [])
    ∷ rule mulhd 0xfc0003ff 0x7c000092 0x400 (ap_reg_6_10 ∷ ap_reg_11_15 ∷ ap_reg_16_20 ∷ [])
    ∷ rule mulhd_ 0xfc0003ff 0x7c000093 0x400 (ap_reg_6_10 ∷ ap_reg_11_15 ∷ ap_reg_16_20 ∷ [])
    ∷ rule divd 0xfc0007ff 0x7c0003d2 0x0 (ap_reg_6_10 ∷ ap_reg_11_15 ∷ ap_reg_16_20 ∷ [])
    ∷ rule divd_ 0xfc0007ff 0x7c0003d3 0x0 (ap_reg_6_10 ∷ ap_reg_11_15 ∷ ap_reg_16_20 ∷ [])
    ∷ rule divdo 0xfc0007ff 0x7c0007d2 0x0 (ap_reg_6_10 ∷ ap_reg_11_15 ∷ ap_reg_16_20 ∷ [])
    ∷ rule divdo_ 0xfc0007ff 0x7c0007d3 0x0 (ap_reg_6_10 ∷ ap_reg_11_15 ∷ ap_reg_16_20 ∷ [])
    ∷ rule divdu 0xfc0007ff 0x7c000392 0x0 (ap_reg_6_10 ∷ ap_reg_11_15 ∷ ap_reg_16_20 ∷ [])
    ∷ rule divdu_ 0xfc0007ff 0x7c000393 0x0 (ap_reg_6_10 ∷ ap_reg_11_15 ∷ ap_reg_16_20 ∷ [])
    ∷ rule divduo 0xfc0007ff 0x7c000792 0x0 (ap_reg_6_10 ∷ ap_reg_11_15 ∷ ap_reg_16_20 ∷ [])
    ∷ rule divduo_ 0xfc0007ff 0x7c000793 0x0 (ap_reg_6_10 ∷ ap_reg_11_15 ∷ ap_reg_16_20 ∷ [])
    ∷ rule divde 0xfc0007ff 0x7c000352 0x0 (ap_reg_6_10 ∷ ap_reg_11_15 ∷ ap_reg_16_20 ∷ [])
    ∷ rule divde_ 0xfc0007ff 0x7c000353 0x0 (ap_reg_6_10 ∷ ap_reg_11_15 ∷ ap_reg_16_20 ∷ [])
    ∷ rule divdeo 0xfc0007ff 0x7c000752 0x0 (ap_reg_6_10 ∷ ap_reg_11_15 ∷ ap_reg_16_20 ∷ [])
    ∷ rule divdeo_ 0xfc0007ff 0x7c000753 0x0 (ap_reg_6_10 ∷ ap_reg_11_15 ∷ ap_reg_16_20 ∷ [])
    ∷ rule divdeu 0xfc0007ff 0x7c000312 0x0 (ap_reg_6_10 ∷ ap_reg_11_15 ∷ ap_reg_16_20 ∷ [])
    ∷ rule divdeu_ 0xfc0007ff 0x7c000313 0x0 (ap_reg_6_10 ∷ ap_reg_11_15 ∷ ap_reg_16_20 ∷ [])
    ∷ rule divdeuo 0xfc0007ff 0x7c000712 0x0 (ap_reg_6_10 ∷ ap_reg_11_15 ∷ ap_reg_16_20 ∷ [])
    ∷ rule divdeuo_ 0xfc0007ff 0x7c000713 0x0 (ap_reg_6_10 ∷ ap_reg_11_15 ∷ ap_reg_16_20 ∷ [])
    ∷ rule cmpwi 0xfc200000 0x2c000000 0x400000
        (ap_cond_reg_field_6_8 ∷ ap_reg_11_15 ∷ ap_imm_signed_16_31 ∷ [])
    ∷ rule cmpdi 0xfc200000 0x2c200000 0x400000
        (ap_cond_reg_field_6_8 ∷ ap_reg_11_15 ∷ ap_imm_signed_16_31 ∷ [])
    ∷ rule cmpw 0xfc2007fe 0x7c000000 0x400001
        (ap_cond_reg_field_6_8 ∷ ap_reg_11_15 ∷ ap_reg_16_20 ∷ [])
    ∷ rule cmpd 0xfc2007fe 0x7c200000 0x400001
        (ap_cond_reg_field_6_8 ∷ ap_reg_11_15 ∷ ap_reg_16_20 ∷ [])
    ∷ rule cmplwi 0xfc200000 0x28000000 0x400000
        (ap_cond_reg_field_6_8 ∷ ap_reg_11_15 ∷ ap_imm_unsigned_16_31 ∷ [])
    ∷ rule cmpldi 0xfc200000 0x28200000 0x400000
        (ap_cond_reg_field_6_8 ∷ ap_reg_11_15 ∷ ap_imm_unsigned_16_31 ∷ [])
    ∷ rule cmplw 0xfc2007fe 0x7c000040 0x400001
        (ap_cond_reg_field_6_8 ∷ ap_reg_11_15 ∷ ap_reg_16_20 ∷ [])
    ∷ rule cmpld 0xfc2007fe 0x7c200040 0x400001
        (ap_cond_reg_field_6_8 ∷ ap_reg_11_15 ∷ ap_reg_16_20 ∷ [])
    ∷ rule twi 0xfc000000 0xc000000 0x0
        (ap_imm_unsigned_6_10 ∷ ap_reg_11_15 ∷ ap_imm_signed_16_31 ∷ [])
    ∷ rule tw 0xfc0007fe 0x7c000008 0x1 (ap_imm_unsigned_6_10 ∷ ap_reg_11_15 ∷ ap_reg_16_20 ∷ [])
    ∷ rule tdi 0xfc000000 0x8000000 0x0
        (ap_imm_unsigned_6_10 ∷ ap_reg_11_15 ∷ ap_imm_signed_16_31 ∷ [])
    ∷ rule isel 0xfc00003e 0x7c00001e 0x1
        (ap_reg_6_10 ∷ ap_reg_11_15 ∷ ap_reg_16_20 ∷ ap_cond_reg_bit_21_25 ∷ [])
    ∷ rule td 0xfc0007fe 0x7c000088 0x1 (ap_imm_unsigned_6_10 ∷ ap_reg_11_15 ∷ ap_reg_16_20 ∷ [])
    ∷ rule andi_ 0xfc000000 0x70000000 0x0 (ap_reg_11_15 ∷ ap_reg_6_10 ∷ ap_imm_unsigned_16_31 ∷ [])
    ∷ rule andis_ 0xfc000000 0x74000000 0x0
        (ap_reg_11_15 ∷ ap_reg_6_10 ∷ ap_imm_unsigned_16_31 ∷ [])
    ∷ rule ori 0xfc000000 0x60000000 0x0 (ap_reg_11_15 ∷ ap_reg_6_10 ∷ ap_imm_unsigned_16_31 ∷ [])
    ∷ rule oris 0xfc000000 0x64000000 0x0 (ap_reg_11_15 ∷ ap_reg_6_10 ∷ ap_imm_unsigned_16_31 ∷ [])
    ∷ rule xori 0xfc000000 0x68000000 0x0 (ap_reg_11_15 ∷ ap_reg_6_10 ∷ ap_imm_unsigned_16_31 ∷ [])
    ∷ rule xoris 0xfc000000 0x6c000000 0x0 (ap_reg_11_15 ∷ ap_reg_6_10 ∷ ap_imm_unsigned_16_31 ∷ [])
    ∷ rule and 0xfc0007ff 0x7c000038 0x0 (ap_reg_11_15 ∷ ap_reg_6_10 ∷ ap_reg_16_20 ∷ [])
    ∷ rule and_ 0xfc0007ff 0x7c000039 0x0 (ap_reg_11_15 ∷ ap_reg_6_10 ∷ ap_reg_16_20 ∷ [])
    ∷ rule xor 0xfc0007ff 0x7c000278 0x0 (ap_reg_11_15 ∷ ap_reg_6_10 ∷ ap_reg_16_20 ∷ [])
    ∷ rule xor_ 0xfc0007ff 0x7c000279 0x0 (ap_reg_11_15 ∷ ap_reg_6_10 ∷ ap_reg_16_20 ∷ [])
    ∷ rule nand 0xfc0007ff 0x7c0003b8 0x0 (ap_reg_11_15 ∷ ap_reg_6_10 ∷ ap_reg_16_20 ∷ [])
    ∷ rule nand_ 0xfc0007ff 0x7c0003b9 0x0 (ap_reg_11_15 ∷ ap_reg_6_10 ∷ ap_reg_16_20 ∷ [])
    ∷ rule or 0xfc0007ff 0x7c000378 0x0 (ap_reg_11_15 ∷ ap_reg_6_10 ∷ ap_reg_16_20 ∷ [])
    ∷ rule or_ 0xfc0007ff 0x7c000379 0x0 (ap_reg_11_15 ∷ ap_reg_6_10 ∷ ap_reg_16_20 ∷ [])
    ∷ rule nor 0xfc0007ff 0x7c0000f8 0x0 (ap_reg_11_15 ∷ ap_reg_6_10 ∷ ap_reg_16_20 ∷ [])
    ∷ rule nor_ 0xfc0007ff 0x7c0000f9 0x0 (ap_reg_11_15 ∷ ap_reg_6_10 ∷ ap_reg_16_20 ∷ [])
    ∷ rule andc 0xfc0007ff 0x7c000078 0x0 (ap_reg_11_15 ∷ ap_reg_6_10 ∷ ap_reg_16_20 ∷ [])
    ∷ rule andc_ 0xfc0007ff 0x7c000079 0x0 (ap_reg_11_15 ∷ ap_reg_6_10 ∷ ap_reg_16_20 ∷ [])
    ∷ rule extsb 0xfc0007ff 0x7c000774 0xf800 (ap_reg_11_15 ∷ ap_reg_6_10 ∷ [])
    ∷ rule extsb_ 0xfc0007ff 0x7c000775 0xf800 (ap_reg_11_15 ∷ ap_reg_6_10 ∷ [])
    ∷ rule eqv 0xfc0007ff 0x7c000238 0x0 (ap_reg_11_15 ∷ ap_reg_6_10 ∷ ap_reg_16_20 ∷ [])
    ∷ rule eqv_ 0xfc0007ff 0x7c000239 0x0 (ap_reg_11_15 ∷ ap_reg_6_10 ∷ ap_reg_16_20 ∷ [])
    ∷ rule orc 0xfc0007ff 0x7c000338 0x0 (ap_reg_11_15 ∷ ap_reg_6_10 ∷ ap_reg_16_20 ∷ [])
    ∷ rule orc_ 0xfc0007ff 0x7c000339 0x0 (ap_reg_11_15 ∷ ap_reg_6_10 ∷ ap_reg_16_20 ∷ [])
    ∷ rule extsh 0xfc0007ff 0x7c000734 0xf800 (ap_reg_11_15 ∷ ap_reg_6_10 ∷ [])
    ∷ rule extsh_ 0xfc0007ff 0x7c000735 0xf800 (ap_reg_11_15 ∷ ap_reg_6_10 ∷ [])
    ∷ rule cmpb 0xfc0007fe 0x7c0003f8 0x1 (ap_reg_11_15 ∷ ap_reg_6_10 ∷ ap_reg_16_20 ∷ [])
    ∷ rule popcntb 0xfc0007fe 0x7c0000f4 0xf801 (ap_reg_11_15 ∷ ap_reg_6_10 ∷ [])
    ∷ rule popcntw 0xfc0007fe 0x7c0002f4 0xf801 (ap_reg_11_15 ∷ ap_reg_6_10 ∷ [])
    ∷ rule prtyd 0xfc0007fe 0x7c000174 0xf801 (ap_reg_11_15 ∷ ap_reg_6_10 ∷ [])
    ∷ rule prtyw 0xfc0007fe 0x7c000134 0xf801 (ap_reg_11_15 ∷ ap_reg_6_10 ∷ [])
    ∷ []

-- ===== src/Asm/Formats/Part01.antt =====
-- power64asm/tables.go: the rules of instFormats from LMW to DIVWE.
use mathlib.Core.List.{List, [], ◌∷◌}
use power.Asm.InstFormat.{InstFormat, rule}
use power.Asm.Fields.{
  ap_reg_6_10, ap_offset_16_31, ap_reg_11_15, ap_imm_unsigned_16_20, ap_reg_16_20,
  ap_imm_signed_16_31,
}
use power.Asm.Op.Part00.{
  lmw, stmw, lswi, lswx, stswi, stswx, li, addi, lis, addis, add, add_, addo, addo_, addic, subf,
  subf_, subfo, subfo_, addic_,
}
use power.Asm.Op.Part01.{
  subfic, addc, addc_, addco, addco_, subfc, subfc_, subfco, subfco_, adde, adde_, addeo, addeo_,
  addme, addme_, addmeo, addmeo_, subfe, subfe_, subfeo, subfeo_, subfme, subfme_, subfmeo,
  subfmeo_, addze, addze_, addzeo, addzeo_, subfze, subfze_, subfzeo, subfzeo_, neg, neg_, nego,
  nego_, mulli, mullw, mullw_, mullwo, mullwo_, mulhw, mulhw_, mulhwu, mulhwu_, divw, divw_, divwo,
  divwo_, divwu, divwu_, divwuo, divwuo_, divwe,
}

unfoldable pub formats01 : List InstFormat
formats01 =
    rule lmw 0xfc000000 0xb8000000 0x0 (ap_reg_6_10 ∷ ap_offset_16_31 ∷ ap_reg_11_15 ∷ [])
    ∷ rule stmw 0xfc000000 0xbc000000 0x0 (ap_reg_6_10 ∷ ap_offset_16_31 ∷ ap_reg_11_15 ∷ [])
    ∷ rule lswi 0xfc0007fe 0x7c0004aa 0x1 (ap_reg_6_10 ∷ ap_reg_11_15 ∷ ap_imm_unsigned_16_20 ∷ [])
    ∷ rule lswx 0xfc0007fe 0x7c00042a 0x1 (ap_reg_6_10 ∷ ap_reg_11_15 ∷ ap_reg_16_20 ∷ [])
    ∷ rule stswi 0xfc0007fe 0x7c0005aa 0x1 (ap_reg_6_10 ∷ ap_reg_11_15 ∷ ap_imm_unsigned_16_20 ∷ [])
    ∷ rule stswx 0xfc0007fe 0x7c00052a 0x1 (ap_reg_6_10 ∷ ap_reg_11_15 ∷ ap_reg_16_20 ∷ [])
    ∷ rule li 0xfc1f0000 0x38000000 0x0 (ap_reg_6_10 ∷ ap_imm_signed_16_31 ∷ [])
    ∷ rule addi 0xfc000000 0x38000000 0x0 (ap_reg_6_10 ∷ ap_reg_11_15 ∷ ap_imm_signed_16_31 ∷ [])
    ∷ rule lis 0xfc1f0000 0x3c000000 0x0 (ap_reg_6_10 ∷ ap_imm_signed_16_31 ∷ [])
    ∷ rule addis 0xfc000000 0x3c000000 0x0 (ap_reg_6_10 ∷ ap_reg_11_15 ∷ ap_imm_signed_16_31 ∷ [])
    ∷ rule add 0xfc0007ff 0x7c000214 0x0 (ap_reg_6_10 ∷ ap_reg_11_15 ∷ ap_reg_16_20 ∷ [])
    ∷ rule add_ 0xfc0007ff 0x7c000215 0x0 (ap_reg_6_10 ∷ ap_reg_11_15 ∷ ap_reg_16_20 ∷ [])
    ∷ rule addo 0xfc0007ff 0x7c000614 0x0 (ap_reg_6_10 ∷ ap_reg_11_15 ∷ ap_reg_16_20 ∷ [])
    ∷ rule addo_ 0xfc0007ff 0x7c000615 0x0 (ap_reg_6_10 ∷ ap_reg_11_15 ∷ ap_reg_16_20 ∷ [])
    ∷ rule addic 0xfc000000 0x30000000 0x0 (ap_reg_6_10 ∷ ap_reg_11_15 ∷ ap_imm_signed_16_31 ∷ [])
    ∷ rule subf 0xfc0007ff 0x7c000050 0x0 (ap_reg_6_10 ∷ ap_reg_11_15 ∷ ap_reg_16_20 ∷ [])
    ∷ rule subf_ 0xfc0007ff 0x7c000051 0x0 (ap_reg_6_10 ∷ ap_reg_11_15 ∷ ap_reg_16_20 ∷ [])
    ∷ rule subfo 0xfc0007ff 0x7c000450 0x0 (ap_reg_6_10 ∷ ap_reg_11_15 ∷ ap_reg_16_20 ∷ [])
    ∷ rule subfo_ 0xfc0007ff 0x7c000451 0x0 (ap_reg_6_10 ∷ ap_reg_11_15 ∷ ap_reg_16_20 ∷ [])
    ∷ rule addic_ 0xfc000000 0x34000000 0x0 (ap_reg_6_10 ∷ ap_reg_11_15 ∷ ap_imm_signed_16_31 ∷ [])
    ∷ rule subfic 0xfc000000 0x20000000 0x0 (ap_reg_6_10 ∷ ap_reg_11_15 ∷ ap_imm_signed_16_31 ∷ [])
    ∷ rule addc 0xfc0007ff 0x7c000014 0x0 (ap_reg_6_10 ∷ ap_reg_11_15 ∷ ap_reg_16_20 ∷ [])
    ∷ rule addc_ 0xfc0007ff 0x7c000015 0x0 (ap_reg_6_10 ∷ ap_reg_11_15 ∷ ap_reg_16_20 ∷ [])
    ∷ rule addco 0xfc0007ff 0x7c000414 0x0 (ap_reg_6_10 ∷ ap_reg_11_15 ∷ ap_reg_16_20 ∷ [])
    ∷ rule addco_ 0xfc0007ff 0x7c000415 0x0 (ap_reg_6_10 ∷ ap_reg_11_15 ∷ ap_reg_16_20 ∷ [])
    ∷ rule subfc 0xfc0007ff 0x7c000010 0x0 (ap_reg_6_10 ∷ ap_reg_11_15 ∷ ap_reg_16_20 ∷ [])
    ∷ rule subfc_ 0xfc0007ff 0x7c000011 0x0 (ap_reg_6_10 ∷ ap_reg_11_15 ∷ ap_reg_16_20 ∷ [])
    ∷ rule subfco 0xfc0007ff 0x7c000410 0x0 (ap_reg_6_10 ∷ ap_reg_11_15 ∷ ap_reg_16_20 ∷ [])
    ∷ rule subfco_ 0xfc0007ff 0x7c000411 0x0 (ap_reg_6_10 ∷ ap_reg_11_15 ∷ ap_reg_16_20 ∷ [])
    ∷ rule adde 0xfc0007ff 0x7c000114 0x0 (ap_reg_6_10 ∷ ap_reg_11_15 ∷ ap_reg_16_20 ∷ [])
    ∷ rule adde_ 0xfc0007ff 0x7c000115 0x0 (ap_reg_6_10 ∷ ap_reg_11_15 ∷ ap_reg_16_20 ∷ [])
    ∷ rule addeo 0xfc0007ff 0x7c000514 0x0 (ap_reg_6_10 ∷ ap_reg_11_15 ∷ ap_reg_16_20 ∷ [])
    ∷ rule addeo_ 0xfc0007ff 0x7c000515 0x0 (ap_reg_6_10 ∷ ap_reg_11_15 ∷ ap_reg_16_20 ∷ [])
    ∷ rule addme 0xfc0007ff 0x7c0001d4 0xf800 (ap_reg_6_10 ∷ ap_reg_11_15 ∷ [])
    ∷ rule addme_ 0xfc0007ff 0x7c0001d5 0xf800 (ap_reg_6_10 ∷ ap_reg_11_15 ∷ [])
    ∷ rule addmeo 0xfc0007ff 0x7c0005d4 0xf800 (ap_reg_6_10 ∷ ap_reg_11_15 ∷ [])
    ∷ rule addmeo_ 0xfc0007ff 0x7c0005d5 0xf800 (ap_reg_6_10 ∷ ap_reg_11_15 ∷ [])
    ∷ rule subfe 0xfc0007ff 0x7c000110 0x0 (ap_reg_6_10 ∷ ap_reg_11_15 ∷ ap_reg_16_20 ∷ [])
    ∷ rule subfe_ 0xfc0007ff 0x7c000111 0x0 (ap_reg_6_10 ∷ ap_reg_11_15 ∷ ap_reg_16_20 ∷ [])
    ∷ rule subfeo 0xfc0007ff 0x7c000510 0x0 (ap_reg_6_10 ∷ ap_reg_11_15 ∷ ap_reg_16_20 ∷ [])
    ∷ rule subfeo_ 0xfc0007ff 0x7c000511 0x0 (ap_reg_6_10 ∷ ap_reg_11_15 ∷ ap_reg_16_20 ∷ [])
    ∷ rule subfme 0xfc0007ff 0x7c0001d0 0xf800 (ap_reg_6_10 ∷ ap_reg_11_15 ∷ [])
    ∷ rule subfme_ 0xfc0007ff 0x7c0001d1 0xf800 (ap_reg_6_10 ∷ ap_reg_11_15 ∷ [])
    ∷ rule subfmeo 0xfc0007ff 0x7c0005d0 0xf800 (ap_reg_6_10 ∷ ap_reg_11_15 ∷ [])
    ∷ rule subfmeo_ 0xfc0007ff 0x7c0005d1 0xf800 (ap_reg_6_10 ∷ ap_reg_11_15 ∷ [])
    ∷ rule addze 0xfc0007ff 0x7c000194 0xf800 (ap_reg_6_10 ∷ ap_reg_11_15 ∷ [])
    ∷ rule addze_ 0xfc0007ff 0x7c000195 0xf800 (ap_reg_6_10 ∷ ap_reg_11_15 ∷ [])
    ∷ rule addzeo 0xfc0007ff 0x7c000594 0xf800 (ap_reg_6_10 ∷ ap_reg_11_15 ∷ [])
    ∷ rule addzeo_ 0xfc0007ff 0x7c000595 0xf800 (ap_reg_6_10 ∷ ap_reg_11_15 ∷ [])
    ∷ rule subfze 0xfc0007ff 0x7c000190 0xf800 (ap_reg_6_10 ∷ ap_reg_11_15 ∷ [])
    ∷ rule subfze_ 0xfc0007ff 0x7c000191 0xf800 (ap_reg_6_10 ∷ ap_reg_11_15 ∷ [])
    ∷ rule subfzeo 0xfc0007ff 0x7c000590 0xf800 (ap_reg_6_10 ∷ ap_reg_11_15 ∷ [])
    ∷ rule subfzeo_ 0xfc0007ff 0x7c000591 0xf800 (ap_reg_6_10 ∷ ap_reg_11_15 ∷ [])
    ∷ rule neg 0xfc0007ff 0x7c0000d0 0xf800 (ap_reg_6_10 ∷ ap_reg_11_15 ∷ [])
    ∷ rule neg_ 0xfc0007ff 0x7c0000d1 0xf800 (ap_reg_6_10 ∷ ap_reg_11_15 ∷ [])
    ∷ rule nego 0xfc0007ff 0x7c0004d0 0xf800 (ap_reg_6_10 ∷ ap_reg_11_15 ∷ [])
    ∷ rule nego_ 0xfc0007ff 0x7c0004d1 0xf800 (ap_reg_6_10 ∷ ap_reg_11_15 ∷ [])
    ∷ rule mulli 0xfc000000 0x1c000000 0x0 (ap_reg_6_10 ∷ ap_reg_11_15 ∷ ap_imm_signed_16_31 ∷ [])
    ∷ rule mullw 0xfc0007ff 0x7c0001d6 0x0 (ap_reg_6_10 ∷ ap_reg_11_15 ∷ ap_reg_16_20 ∷ [])
    ∷ rule mullw_ 0xfc0007ff 0x7c0001d7 0x0 (ap_reg_6_10 ∷ ap_reg_11_15 ∷ ap_reg_16_20 ∷ [])
    ∷ rule mullwo 0xfc0007ff 0x7c0005d6 0x0 (ap_reg_6_10 ∷ ap_reg_11_15 ∷ ap_reg_16_20 ∷ [])
    ∷ rule mullwo_ 0xfc0007ff 0x7c0005d7 0x0 (ap_reg_6_10 ∷ ap_reg_11_15 ∷ ap_reg_16_20 ∷ [])
    ∷ rule mulhw 0xfc0003ff 0x7c000096 0x400 (ap_reg_6_10 ∷ ap_reg_11_15 ∷ ap_reg_16_20 ∷ [])
    ∷ rule mulhw_ 0xfc0003ff 0x7c000097 0x400 (ap_reg_6_10 ∷ ap_reg_11_15 ∷ ap_reg_16_20 ∷ [])
    ∷ rule mulhwu 0xfc0003ff 0x7c000016 0x400 (ap_reg_6_10 ∷ ap_reg_11_15 ∷ ap_reg_16_20 ∷ [])
    ∷ rule mulhwu_ 0xfc0003ff 0x7c000017 0x400 (ap_reg_6_10 ∷ ap_reg_11_15 ∷ ap_reg_16_20 ∷ [])
    ∷ rule divw 0xfc0007ff 0x7c0003d6 0x0 (ap_reg_6_10 ∷ ap_reg_11_15 ∷ ap_reg_16_20 ∷ [])
    ∷ rule divw_ 0xfc0007ff 0x7c0003d7 0x0 (ap_reg_6_10 ∷ ap_reg_11_15 ∷ ap_reg_16_20 ∷ [])
    ∷ rule divwo 0xfc0007ff 0x7c0007d6 0x0 (ap_reg_6_10 ∷ ap_reg_11_15 ∷ ap_reg_16_20 ∷ [])
    ∷ rule divwo_ 0xfc0007ff 0x7c0007d7 0x0 (ap_reg_6_10 ∷ ap_reg_11_15 ∷ ap_reg_16_20 ∷ [])
    ∷ rule divwu 0xfc0007ff 0x7c000396 0x0 (ap_reg_6_10 ∷ ap_reg_11_15 ∷ ap_reg_16_20 ∷ [])
    ∷ rule divwu_ 0xfc0007ff 0x7c000397 0x0 (ap_reg_6_10 ∷ ap_reg_11_15 ∷ ap_reg_16_20 ∷ [])
    ∷ rule divwuo 0xfc0007ff 0x7c000796 0x0 (ap_reg_6_10 ∷ ap_reg_11_15 ∷ ap_reg_16_20 ∷ [])
    ∷ rule divwuo_ 0xfc0007ff 0x7c000797 0x0 (ap_reg_6_10 ∷ ap_reg_11_15 ∷ ap_reg_16_20 ∷ [])
    ∷ rule divwe 0xfc0007ff 0x7c000356 0x0 (ap_reg_6_10 ∷ ap_reg_11_15 ∷ ap_reg_16_20 ∷ [])
    ∷ []

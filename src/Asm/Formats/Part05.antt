-- ===== src/Asm/Formats/Part05.antt =====
-- power64asm/tables.go: the rules of instFormats from FCTIW_ to VMRGLH.
use mathlib.Core.List.{List, [], ◌∷◌}
use power.Asm.InstFormat.{InstFormat, rule}
use power.Asm.Fields.{
  ap_fp_reg_6_10, ap_fp_reg_16_20, ap_cond_reg_field_6_8, ap_fp_reg_11_15, ap_fp_reg_21_25,
  ap_cond_reg_field_11_13, ap_imm_unsigned_16_19, ap_imm_unsigned_15_15, ap_imm_unsigned_7_14,
  ap_imm_unsigned_6_6, ap_cond_reg_bit_6_10, ap_vec_reg_6_10, ap_reg_11_15, ap_reg_16_20,
  ap_vec_reg_11_15, ap_vec_reg_16_20,
}
use power.Asm.Op.Part03.{fctiw_, fctiwz, fctiwz_, fctiwu, fctiwu_}
use power.Asm.Op.Part04.{
  fctiwuz, fctiwuz_, fcfid, fcfid_, fcfidu, fcfidu_, fcfids, fcfids_, fcfidus, fcfidus_, frin,
  frin_, friz, friz_, frip, frip_, frim, frim_, fcmpu, fcmpo, fsel, fsel_, mffs, mffs_, mcrfs,
  mtfsfi, mtfsfi_, mtfsf, mtfsf_, mtfsb0, mtfsb0_, mtfsb1, mtfsb1_, lvebx, lvehx, lvewx, lvx, lvxl,
  stvebx, stvehx, stvewx, stvx, stvxl, lvsl, lvsr, vpkpx, vpksdss, vpksdus, vpkshss, vpkshus,
  vpkswss, vpkswus, vpkudum, vpkudus, vpkuhum, vpkuhus, vpkuwum, vpkuwus, vupkhpx, vupklpx, vupkhsb,
  vupkhsh, vupkhsw, vupklsb, vupklsh, vupklsw, vmrghb, vmrghh, vmrglb, vmrglh,
}

unfoldable pub formats05 : List InstFormat
formats05 =
    rule fctiw_ 0xfc0007ff 0xfc00001d 0x1f0000 (ap_fp_reg_6_10 ∷ ap_fp_reg_16_20 ∷ [])
    ∷ rule fctiwz 0xfc0007ff 0xfc00001e 0x1f0000 (ap_fp_reg_6_10 ∷ ap_fp_reg_16_20 ∷ [])
    ∷ rule fctiwz_ 0xfc0007ff 0xfc00001f 0x1f0000 (ap_fp_reg_6_10 ∷ ap_fp_reg_16_20 ∷ [])
    ∷ rule fctiwu 0xfc0007ff 0xfc00011c 0x1f0000 (ap_fp_reg_6_10 ∷ ap_fp_reg_16_20 ∷ [])
    ∷ rule fctiwu_ 0xfc0007ff 0xfc00011d 0x1f0000 (ap_fp_reg_6_10 ∷ ap_fp_reg_16_20 ∷ [])
    ∷ rule fctiwuz 0xfc0007ff 0xfc00011e 0x1f0000 (ap_fp_reg_6_10 ∷ ap_fp_reg_16_20 ∷ [])
    ∷ rule fctiwuz_ 0xfc0007ff 0xfc00011f 0x1f0000 (ap_fp_reg_6_10 ∷ ap_fp_reg_16_20 ∷ [])
    ∷ rule fcfid 0xfc0007ff 0xfc00069c 0x1f0000 (ap_fp_reg_6_10 ∷ ap_fp_reg_16_20 ∷ [])
    ∷ rule fcfid_ 0xfc0007ff 0xfc00069d 0x1f0000 (ap_fp_reg_6_10 ∷ ap_fp_reg_16_20 ∷ [])
    ∷ rule fcfidu 0xfc0007ff 0xfc00079c 0x1f0000 (ap_fp_reg_6_10 ∷ ap_fp_reg_16_20 ∷ [])
    ∷ rule fcfidu_ 0xfc0007ff 0xfc00079d 0x1f0000 (ap_fp_reg_6_10 ∷ ap_fp_reg_16_20 ∷ [])
    ∷ rule fcfids 0xfc0007ff 0xec00069c 0x1f0000 (ap_fp_reg_6_10 ∷ ap_fp_reg_16_20 ∷ [])
    ∷ rule fcfids_ 0xfc0007ff 0xec00069d 0x1f0000 (ap_fp_reg_6_10 ∷ ap_fp_reg_16_20 ∷ [])
    ∷ rule fcfidus 0xfc0007ff 0xec00079c 0x1f0000 (ap_fp_reg_6_10 ∷ ap_fp_reg_16_20 ∷ [])
    ∷ rule fcfidus_ 0xfc0007ff 0xec00079d 0x1f0000 (ap_fp_reg_6_10 ∷ ap_fp_reg_16_20 ∷ [])
    ∷ rule frin 0xfc0007ff 0xfc000310 0x1f0000 (ap_fp_reg_6_10 ∷ ap_fp_reg_16_20 ∷ [])
    ∷ rule frin_ 0xfc0007ff 0xfc000311 0x1f0000 (ap_fp_reg_6_10 ∷ ap_fp_reg_16_20 ∷ [])
    ∷ rule friz 0xfc0007ff 0xfc000350 0x1f0000 (ap_fp_reg_6_10 ∷ ap_fp_reg_16_20 ∷ [])
    ∷ rule friz_ 0xfc0007ff 0xfc000351 0x1f0000 (ap_fp_reg_6_10 ∷ ap_fp_reg_16_20 ∷ [])
    ∷ rule frip 0xfc0007ff 0xfc000390 0x1f0000 (ap_fp_reg_6_10 ∷ ap_fp_reg_16_20 ∷ [])
    ∷ rule frip_ 0xfc0007ff 0xfc000391 0x1f0000 (ap_fp_reg_6_10 ∷ ap_fp_reg_16_20 ∷ [])
    ∷ rule frim 0xfc0007ff 0xfc0003d0 0x1f0000 (ap_fp_reg_6_10 ∷ ap_fp_reg_16_20 ∷ [])
    ∷ rule frim_ 0xfc0007ff 0xfc0003d1 0x1f0000 (ap_fp_reg_6_10 ∷ ap_fp_reg_16_20 ∷ [])
    ∷ rule fcmpu 0xfc0007fe 0xfc000000 0x600001
        (ap_cond_reg_field_6_8 ∷ ap_fp_reg_11_15 ∷ ap_fp_reg_16_20 ∷ [])
    ∷ rule fcmpo 0xfc0007fe 0xfc000040 0x600001
        (ap_cond_reg_field_6_8 ∷ ap_fp_reg_11_15 ∷ ap_fp_reg_16_20 ∷ [])
    ∷ rule fsel 0xfc00003f 0xfc00002e 0x0
        (ap_fp_reg_6_10 ∷ ap_fp_reg_11_15 ∷ ap_fp_reg_21_25 ∷ ap_fp_reg_16_20 ∷ [])
    ∷ rule fsel_ 0xfc00003f 0xfc00002f 0x0
        (ap_fp_reg_6_10 ∷ ap_fp_reg_11_15 ∷ ap_fp_reg_21_25 ∷ ap_fp_reg_16_20 ∷ [])
    ∷ rule mffs 0xfc0007ff 0xfc00048e 0x1ff800 (ap_fp_reg_6_10 ∷ [])
    ∷ rule mffs_ 0xfc0007ff 0xfc00048f 0x1ff800 (ap_fp_reg_6_10 ∷ [])
    ∷ rule mcrfs 0xfc0007fe 0xfc000080 0x63f801
        (ap_cond_reg_field_6_8 ∷ ap_cond_reg_field_11_13 ∷ [])
    ∷ rule mtfsfi 0xfc0007ff 0xfc00010c 0x7e0800
        (ap_cond_reg_field_6_8 ∷ ap_imm_unsigned_16_19 ∷ ap_imm_unsigned_15_15 ∷ [])
    ∷ rule mtfsfi_ 0xfc0007ff 0xfc00010d 0x7e0800
        (ap_cond_reg_field_6_8 ∷ ap_imm_unsigned_16_19 ∷ ap_imm_unsigned_15_15 ∷ [])
    ∷ rule mtfsf 0xfc0007ff 0xfc00058e 0x0
        (ap_imm_unsigned_7_14 ∷ ap_fp_reg_16_20 ∷ ap_imm_unsigned_6_6 ∷ ap_imm_unsigned_15_15 ∷ [])
    ∷ rule mtfsf_ 0xfc0007ff 0xfc00058f 0x0
        (ap_imm_unsigned_7_14 ∷ ap_fp_reg_16_20 ∷ ap_imm_unsigned_6_6 ∷ ap_imm_unsigned_15_15 ∷ [])
    ∷ rule mtfsb0 0xfc0007ff 0xfc00008c 0x1ff800 (ap_cond_reg_bit_6_10 ∷ [])
    ∷ rule mtfsb0_ 0xfc0007ff 0xfc00008d 0x1ff800 (ap_cond_reg_bit_6_10 ∷ [])
    ∷ rule mtfsb1 0xfc0007ff 0xfc00004c 0x1ff800 (ap_cond_reg_bit_6_10 ∷ [])
    ∷ rule mtfsb1_ 0xfc0007ff 0xfc00004d 0x1ff800 (ap_cond_reg_bit_6_10 ∷ [])
    ∷ rule lvebx 0xfc0007fe 0x7c00000e 0x1 (ap_vec_reg_6_10 ∷ ap_reg_11_15 ∷ ap_reg_16_20 ∷ [])
    ∷ rule lvehx 0xfc0007fe 0x7c00004e 0x1 (ap_vec_reg_6_10 ∷ ap_reg_11_15 ∷ ap_reg_16_20 ∷ [])
    ∷ rule lvewx 0xfc0007fe 0x7c00008e 0x1 (ap_vec_reg_6_10 ∷ ap_reg_11_15 ∷ ap_reg_16_20 ∷ [])
    ∷ rule lvx 0xfc0007fe 0x7c0000ce 0x1 (ap_vec_reg_6_10 ∷ ap_reg_11_15 ∷ ap_reg_16_20 ∷ [])
    ∷ rule lvxl 0xfc0007fe 0x7c0002ce 0x1 (ap_vec_reg_6_10 ∷ ap_reg_11_15 ∷ ap_reg_16_20 ∷ [])
    ∷ rule stvebx 0xfc0007fe 0x7c00010e 0x1 (ap_vec_reg_6_10 ∷ ap_reg_11_15 ∷ ap_reg_16_20 ∷ [])
    ∷ rule stvehx 0xfc0007fe 0x7c00014e 0x1 (ap_vec_reg_6_10 ∷ ap_reg_11_15 ∷ ap_reg_16_20 ∷ [])
    ∷ rule stvewx 0xfc0007fe 0x7c00018e 0x1 (ap_vec_reg_6_10 ∷ ap_reg_11_15 ∷ ap_reg_16_20 ∷ [])
    ∷ rule stvx 0xfc0007fe 0x7c0001ce 0x1 (ap_vec_reg_6_10 ∷ ap_reg_11_15 ∷ ap_reg_16_20 ∷ [])
    ∷ rule stvxl 0xfc0007fe 0x7c0003ce 0x1 (ap_vec_reg_6_10 ∷ ap_reg_11_15 ∷ ap_reg_16_20 ∷ [])
    ∷ rule lvsl 0xfc0007fe 0x7c00000c 0x1 (ap_vec_reg_6_10 ∷ ap_reg_11_15 ∷ ap_reg_16_20 ∷ [])
    ∷ rule lvsr 0xfc0007fe 0x7c00004c 0x1 (ap_vec_reg_6_10 ∷ ap_reg_11_15 ∷ ap_reg_16_20 ∷ [])
    ∷ rule vpkpx 0xfc0007ff 0x1000030e 0x0
        (ap_vec_reg_6_10 ∷ ap_vec_reg_11_15 ∷ ap_vec_reg_16_20 ∷ [])
    ∷ rule vpksdss 0xfc0007ff 0x100005ce 0x0
        (ap_vec_reg_6_10 ∷ ap_vec_reg_11_15 ∷ ap_vec_reg_16_20 ∷ [])
    ∷ rule vpksdus 0xfc0007ff 0x1000054e 0x0
        (ap_vec_reg_6_10 ∷ ap_vec_reg_11_15 ∷ ap_vec_reg_16_20 ∷ [])
    ∷ rule vpkshss 0xfc0007ff 0x1000018e 0x0
        (ap_vec_reg_6_10 ∷ ap_vec_reg_11_15 ∷ ap_vec_reg_16_20 ∷ [])
    ∷ rule vpkshus 0xfc0007ff 0x1000010e 0x0
        (ap_vec_reg_6_10 ∷ ap_vec_reg_11_15 ∷ ap_vec_reg_16_20 ∷ [])
    ∷ rule vpkswss 0xfc0007ff 0x100001ce 0x0
        (ap_vec_reg_6_10 ∷ ap_vec_reg_11_15 ∷ ap_vec_reg_16_20 ∷ [])
    ∷ rule vpkswus 0xfc0007ff 0x1000014e 0x0
        (ap_vec_reg_6_10 ∷ ap_vec_reg_11_15 ∷ ap_vec_reg_16_20 ∷ [])
    ∷ rule vpkudum 0xfc0007ff 0x1000044e 0x0
        (ap_vec_reg_6_10 ∷ ap_vec_reg_11_15 ∷ ap_vec_reg_16_20 ∷ [])
    ∷ rule vpkudus 0xfc0007ff 0x100004ce 0x0
        (ap_vec_reg_6_10 ∷ ap_vec_reg_11_15 ∷ ap_vec_reg_16_20 ∷ [])
    ∷ rule vpkuhum 0xfc0007ff 0x1000000e 0x0
        (ap_vec_reg_6_10 ∷ ap_vec_reg_11_15 ∷ ap_vec_reg_16_20 ∷ [])
    ∷ rule vpkuhus 0xfc0007ff 0x1000008e 0x0
        (ap_vec_reg_6_10 ∷ ap_vec_reg_11_15 ∷ ap_vec_reg_16_20 ∷ [])
    ∷ rule vpkuwum 0xfc0007ff 0x1000004e 0x0
        (ap_vec_reg_6_10 ∷ ap_vec_reg_11_15 ∷ ap_vec_reg_16_20 ∷ [])
    ∷ rule vpkuwus 0xfc0007ff 0x100000ce 0x0
        (ap_vec_reg_6_10 ∷ ap_vec_reg_11_15 ∷ ap_vec_reg_16_20 ∷ [])
    ∷ rule vupkhpx 0xfc0007ff 0x1000034e 0x1f0000 (ap_vec_reg_6_10 ∷ ap_vec_reg_16_20 ∷ [])
    ∷ rule vupklpx 0xfc0007ff 0x100003ce 0x1f0000 (ap_vec_reg_6_10 ∷ ap_vec_reg_16_20 ∷ [])
    ∷ rule vupkhsb 0xfc0007ff 0x1000020e 0x1f0000 (ap_vec_reg_6_10 ∷ ap_vec_reg_16_20 ∷ [])
    ∷ rule vupkhsh 0xfc0007ff 0x1000024e 0x1f0000 (ap_vec_reg_6_10 ∷ ap_vec_reg_16_20 ∷ [])
    ∷ rule vupkhsw 0xfc0007ff 0x1000064e 0x1f0000 (ap_vec_reg_6_10 ∷ ap_vec_reg_16_20 ∷ [])
    ∷ rule vupklsb 0xfc0007ff 0x1000028e 0x1f0000 (ap_vec_reg_6_10 ∷ ap_vec_reg_16_20 ∷ [])
    ∷ rule vupklsh 0xfc0007ff 0x100002ce 0x1f0000 (ap_vec_reg_6_10 ∷ ap_vec_reg_16_20 ∷ [])
    ∷ rule vupklsw 0xfc0007ff 0x100006ce 0x1f0000 (ap_vec_reg_6_10 ∷ ap_vec_reg_16_20 ∷ [])
    ∷ rule vmrghb 0xfc0007ff 0x1000000c 0x0
        (ap_vec_reg_6_10 ∷ ap_vec_reg_11_15 ∷ ap_vec_reg_16_20 ∷ [])
    ∷ rule vmrghh 0xfc0007ff 0x1000004c 0x0
        (ap_vec_reg_6_10 ∷ ap_vec_reg_11_15 ∷ ap_vec_reg_16_20 ∷ [])
    ∷ rule vmrglb 0xfc0007ff 0x1000010c 0x0
        (ap_vec_reg_6_10 ∷ ap_vec_reg_11_15 ∷ ap_vec_reg_16_20 ∷ [])
    ∷ rule vmrglh 0xfc0007ff 0x1000014c 0x0
        (ap_vec_reg_6_10 ∷ ap_vec_reg_11_15 ∷ ap_vec_reg_16_20 ∷ [])
    ∷ []

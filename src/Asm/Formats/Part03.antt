-- ===== src/Asm/Formats/Part03.antt =====
-- power64asm/tables.go: the rules of instFormats from EXTSW to STFDX.
use mathlib.Core.List.{List, [], ◌∷◌}
use power.Asm.InstFormat.{InstFormat, rule}
use power.Asm.Fields.{
  ap_reg_11_15, ap_reg_6_10, ap_reg_16_20, ap_imm_unsigned_16_20, ap_imm_unsigned_21_25,
  ap_imm_unsigned_26_30, ap_imm_unsigned_30_30_16_20, ap_imm_unsigned_26_26_21_25,
  ap_sp_reg_16_20_11_15, ap_imm_unsigned_12_19, ap_imm_unsigned_10_10, ap_vec_reg_31_31_6_10,
  ap_cond_reg_field_6_8, ap_fp_reg_6_10, ap_offset_16_31,
}
use power.Asm.Op.Part02.{
  extsw, extsw_, cntlzd, cntlzd_, popcntd, bpermd, rlwinm, rlwinm_, rlwnm, rlwnm_, rlwimi, rlwimi_,
  rldicl, rldicl_, rldicr, rldicr_, rldic, rldic_, rldcl, rldcl_, rldcr, rldcr_, rldimi, rldimi_,
  slw, slw_, srw, srw_, srawi, srawi_, sraw, sraw_, sld, sld_, srd, srd_, sradi, sradi_, srad,
  srad_, cdtbcd, cbcdtd, addg6s, mtspr, mfspr, mtcrf, mfcr, mtsle, mfvsrd, mfvsrwz, mtvsrd, mtvsrwa,
  mtvsrwz, mtocrf, mfocrf, mcrxr, mtdcrux, mfdcrux, lfs, lfsu,
}
use power.Asm.Op.Part03.{
  lfsx, lfsux, lfd, lfdu, lfdx, lfdux, lfiwax, lfiwzx, stfs, stfsu, stfsx, stfsux, stfd, stfdu,
  stfdx,
}

unfoldable pub formats03 : List InstFormat
formats03 =
    rule extsw 0xfc0007ff 0x7c0007b4 0xf800 (ap_reg_11_15 ∷ ap_reg_6_10 ∷ [])
    ∷ rule extsw_ 0xfc0007ff 0x7c0007b5 0xf800 (ap_reg_11_15 ∷ ap_reg_6_10 ∷ [])
    ∷ rule cntlzd 0xfc0007ff 0x7c000074 0xf800 (ap_reg_11_15 ∷ ap_reg_6_10 ∷ [])
    ∷ rule cntlzd_ 0xfc0007ff 0x7c000075 0xf800 (ap_reg_11_15 ∷ ap_reg_6_10 ∷ [])
    ∷ rule popcntd 0xfc0007fe 0x7c0003f4 0xf801 (ap_reg_11_15 ∷ ap_reg_6_10 ∷ [])
    ∷ rule bpermd 0xfc0007fe 0x7c0001f8 0x1 (ap_reg_11_15 ∷ ap_reg_6_10 ∷ ap_reg_16_20 ∷ [])
    ∷ rule rlwinm 0xfc000001 0x54000000 0x0 (
        ap_reg_11_15 ∷ ap_reg_6_10 ∷ ap_imm_unsigned_16_20 ∷ ap_imm_unsigned_21_25
        ∷ ap_imm_unsigned_26_30 ∷ [])
    ∷ rule rlwinm_ 0xfc000001 0x54000001 0x0 (
        ap_reg_11_15 ∷ ap_reg_6_10 ∷ ap_imm_unsigned_16_20 ∷ ap_imm_unsigned_21_25
        ∷ ap_imm_unsigned_26_30 ∷ [])
    ∷ rule rlwnm 0xfc000001 0x5c000000 0x0 (
        ap_reg_11_15 ∷ ap_reg_6_10 ∷ ap_reg_16_20 ∷ ap_imm_unsigned_21_25 ∷ ap_imm_unsigned_26_30
        ∷ [])
    ∷ rule rlwnm_ 0xfc000001 0x5c000001 0x0 (
        ap_reg_11_15 ∷ ap_reg_6_10 ∷ ap_reg_16_20 ∷ ap_imm_unsigned_21_25 ∷ ap_imm_unsigned_26_30
        ∷ [])
    ∷ rule rlwimi 0xfc000001 0x50000000 0x0 (
        ap_reg_11_15 ∷ ap_reg_6_10 ∷ ap_imm_unsigned_16_20 ∷ ap_imm_unsigned_21_25
        ∷ ap_imm_unsigned_26_30 ∷ [])
    ∷ rule rlwimi_ 0xfc000001 0x50000001 0x0 (
        ap_reg_11_15 ∷ ap_reg_6_10 ∷ ap_imm_unsigned_16_20 ∷ ap_imm_unsigned_21_25
        ∷ ap_imm_unsigned_26_30 ∷ [])
    ∷ rule rldicl 0xfc00001d 0x78000000 0x0 (
        ap_reg_11_15 ∷ ap_reg_6_10 ∷ ap_imm_unsigned_30_30_16_20 ∷ ap_imm_unsigned_26_26_21_25 ∷ [])
    ∷ rule rldicl_ 0xfc00001d 0x78000001 0x0 (
        ap_reg_11_15 ∷ ap_reg_6_10 ∷ ap_imm_unsigned_30_30_16_20 ∷ ap_imm_unsigned_26_26_21_25 ∷ [])
    ∷ rule rldicr 0xfc00001d 0x78000004 0x0 (
        ap_reg_11_15 ∷ ap_reg_6_10 ∷ ap_imm_unsigned_30_30_16_20 ∷ ap_imm_unsigned_26_26_21_25 ∷ [])
    ∷ rule rldicr_ 0xfc00001d 0x78000005 0x0 (
        ap_reg_11_15 ∷ ap_reg_6_10 ∷ ap_imm_unsigned_30_30_16_20 ∷ ap_imm_unsigned_26_26_21_25 ∷ [])
    ∷ rule rldic 0xfc00001d 0x78000008 0x0 (
        ap_reg_11_15 ∷ ap_reg_6_10 ∷ ap_imm_unsigned_30_30_16_20 ∷ ap_imm_unsigned_26_26_21_25 ∷ [])
    ∷ rule rldic_ 0xfc00001d 0x78000009 0x0 (
        ap_reg_11_15 ∷ ap_reg_6_10 ∷ ap_imm_unsigned_30_30_16_20 ∷ ap_imm_unsigned_26_26_21_25 ∷ [])
    ∷ rule rldcl 0xfc00001f 0x78000010 0x0
        (ap_reg_11_15 ∷ ap_reg_6_10 ∷ ap_reg_16_20 ∷ ap_imm_unsigned_26_26_21_25 ∷ [])
    ∷ rule rldcl_ 0xfc00001f 0x78000011 0x0
        (ap_reg_11_15 ∷ ap_reg_6_10 ∷ ap_reg_16_20 ∷ ap_imm_unsigned_26_26_21_25 ∷ [])
    ∷ rule rldcr 0xfc00001f 0x78000012 0x0
        (ap_reg_11_15 ∷ ap_reg_6_10 ∷ ap_reg_16_20 ∷ ap_imm_unsigned_26_26_21_25 ∷ [])
    ∷ rule rldcr_ 0xfc00001f 0x78000013 0x0
        (ap_reg_11_15 ∷ ap_reg_6_10 ∷ ap_reg_16_20 ∷ ap_imm_unsigned_26_26_21_25 ∷ [])
    ∷ rule rldimi 0xfc00001d 0x7800000c 0x0 (
        ap_reg_11_15 ∷ ap_reg_6_10 ∷ ap_imm_unsigned_30_30_16_20 ∷ ap_imm_unsigned_26_26_21_25 ∷ [])
    ∷ rule rldimi_ 0xfc00001d 0x7800000d 0x0 (
        ap_reg_11_15 ∷ ap_reg_6_10 ∷ ap_imm_unsigned_30_30_16_20 ∷ ap_imm_unsigned_26_26_21_25 ∷ [])
    ∷ rule slw 0xfc0007ff 0x7c000030 0x0 (ap_reg_11_15 ∷ ap_reg_6_10 ∷ ap_reg_16_20 ∷ [])
    ∷ rule slw_ 0xfc0007ff 0x7c000031 0x0 (ap_reg_11_15 ∷ ap_reg_6_10 ∷ ap_reg_16_20 ∷ [])
    ∷ rule srw 0xfc0007ff 0x7c000430 0x0 (ap_reg_11_15 ∷ ap_reg_6_10 ∷ ap_reg_16_20 ∷ [])
    ∷ rule srw_ 0xfc0007ff 0x7c000431 0x0 (ap_reg_11_15 ∷ ap_reg_6_10 ∷ ap_reg_16_20 ∷ [])
    ∷ rule srawi 0xfc0007ff 0x7c000670 0x0 (ap_reg_11_15 ∷ ap_reg_6_10 ∷ ap_imm_unsigned_16_20 ∷ [])
    ∷ rule srawi_ 0xfc0007ff 0x7c000671 0x0
        (ap_reg_11_15 ∷ ap_reg_6_10 ∷ ap_imm_unsigned_16_20 ∷ [])
    ∷ rule sraw 0xfc0007ff 0x7c000630 0x0 (ap_reg_11_15 ∷ ap_reg_6_10 ∷ ap_reg_16_20 ∷ [])
    ∷ rule sraw_ 0xfc0007ff 0x7c000631 0x0 (ap_reg_11_15 ∷ ap_reg_6_10 ∷ ap_reg_16_20 ∷ [])
    ∷ rule sld 0xfc0007ff 0x7c000036 0x0 (ap_reg_11_15 ∷ ap_reg_6_10 ∷ ap_reg_16_20 ∷ [])
    ∷ rule sld_ 0xfc0007ff 0x7c000037 0x0 (ap_reg_11_15 ∷ ap_reg_6_10 ∷ ap_reg_16_20 ∷ [])
    ∷ rule srd 0xfc0007ff 0x7c000436 0x0 (ap_reg_11_15 ∷ ap_reg_6_10 ∷ ap_reg_16_20 ∷ [])
    ∷ rule srd_ 0xfc0007ff 0x7c000437 0x0 (ap_reg_11_15 ∷ ap_reg_6_10 ∷ ap_reg_16_20 ∷ [])
    ∷ rule sradi 0xfc0007fd 0x7c000674 0x0
        (ap_reg_11_15 ∷ ap_reg_6_10 ∷ ap_imm_unsigned_30_30_16_20 ∷ [])
    ∷ rule sradi_ 0xfc0007fd 0x7c000675 0x0
        (ap_reg_11_15 ∷ ap_reg_6_10 ∷ ap_imm_unsigned_30_30_16_20 ∷ [])
    ∷ rule srad 0xfc0007ff 0x7c000634 0x0 (ap_reg_11_15 ∷ ap_reg_6_10 ∷ ap_reg_16_20 ∷ [])
    ∷ rule srad_ 0xfc0007ff 0x7c000635 0x0 (ap_reg_11_15 ∷ ap_reg_6_10 ∷ ap_reg_16_20 ∷ [])
    ∷ rule cdtbcd 0xfc0007fe 0x7c000234 0xf801 (ap_reg_11_15 ∷ ap_reg_6_10 ∷ [])
    ∷ rule cbcdtd 0xfc0007fe 0x7c000274 0xf801 (ap_reg_11_15 ∷ ap_reg_6_10 ∷ [])
    ∷ rule addg6s 0xfc0003fe 0x7c000094 0x401 (ap_reg_6_10 ∷ ap_reg_11_15 ∷ ap_reg_16_20 ∷ [])
    ∷ rule mtspr 0xfc0007fe 0x7c0003a6 0x1 (ap_sp_reg_16_20_11_15 ∷ ap_reg_6_10 ∷ [])
    ∷ rule mfspr 0xfc0007fe 0x7c0002a6 0x1 (ap_reg_6_10 ∷ ap_sp_reg_16_20_11_15 ∷ [])
    ∷ rule mtcrf 0xfc1007fe 0x7c000120 0x801 (ap_imm_unsigned_12_19 ∷ ap_reg_6_10 ∷ [])
    ∷ rule mfcr 0xfc1007fe 0x7c000026 0xff801 (ap_reg_6_10 ∷ [])
    ∷ rule mtsle 0xfc0007fe 0x7c000126 0x3dff801 (ap_imm_unsigned_10_10 ∷ [])
    ∷ rule mfvsrd 0xfc0007fe 0x7c000066 0xf800 (ap_reg_11_15 ∷ ap_vec_reg_31_31_6_10 ∷ [])
    ∷ rule mfvsrwz 0xfc0007fe 0x7c0000e6 0xf800 (ap_reg_11_15 ∷ ap_vec_reg_31_31_6_10 ∷ [])
    ∷ rule mtvsrd 0xfc0007fe 0x7c000166 0xf800 (ap_vec_reg_31_31_6_10 ∷ ap_reg_11_15 ∷ [])
    ∷ rule mtvsrwa 0xfc0007fe 0x7c0001a6 0xf800 (ap_vec_reg_31_31_6_10 ∷ ap_reg_11_15 ∷ [])
    ∷ rule mtvsrwz 0xfc0007fe 0x7c0001e6 0xf800 (ap_vec_reg_31_31_6_10 ∷ ap_reg_11_15 ∷ [])
    ∷ rule mtocrf 0xfc1007fe 0x7c100120 0x801 (ap_imm_unsigned_12_19 ∷ ap_reg_6_10 ∷ [])
    ∷ rule mfocrf 0xfc1007fe 0x7c100026 0x801 (ap_reg_6_10 ∷ ap_imm_unsigned_12_19 ∷ [])
    ∷ rule mcrxr 0xfc0007fe 0x7c000400 0x7ff801 (ap_cond_reg_field_6_8 ∷ [])
    ∷ rule mtdcrux 0xfc0007fe 0x7c000346 0xf801 (ap_reg_6_10 ∷ ap_reg_11_15 ∷ [])
    ∷ rule mfdcrux 0xfc0007fe 0x7c000246 0xf801 (ap_reg_6_10 ∷ ap_reg_11_15 ∷ [])
    ∷ rule lfs 0xfc000000 0xc0000000 0x0 (ap_fp_reg_6_10 ∷ ap_offset_16_31 ∷ ap_reg_11_15 ∷ [])
    ∷ rule lfsu 0xfc000000 0xc4000000 0x0 (ap_fp_reg_6_10 ∷ ap_offset_16_31 ∷ ap_reg_11_15 ∷ [])
    ∷ rule lfsx 0xfc0007fe 0x7c00042e 0x1 (ap_fp_reg_6_10 ∷ ap_reg_11_15 ∷ ap_reg_16_20 ∷ [])
    ∷ rule lfsux 0xfc0007fe 0x7c00046e 0x1 (ap_fp_reg_6_10 ∷ ap_reg_11_15 ∷ ap_reg_16_20 ∷ [])
    ∷ rule lfd 0xfc000000 0xc8000000 0x0 (ap_fp_reg_6_10 ∷ ap_offset_16_31 ∷ ap_reg_11_15 ∷ [])
    ∷ rule lfdu 0xfc000000 0xcc000000 0x0 (ap_fp_reg_6_10 ∷ ap_offset_16_31 ∷ ap_reg_11_15 ∷ [])
    ∷ rule lfdx 0xfc0007fe 0x7c0004ae 0x1 (ap_fp_reg_6_10 ∷ ap_reg_11_15 ∷ ap_reg_16_20 ∷ [])
    ∷ rule lfdux 0xfc0007fe 0x7c0004ee 0x1 (ap_fp_reg_6_10 ∷ ap_reg_11_15 ∷ ap_reg_16_20 ∷ [])
    ∷ rule lfiwax 0xfc0007fe 0x7c0006ae 0x1 (ap_fp_reg_6_10 ∷ ap_reg_11_15 ∷ ap_reg_16_20 ∷ [])
    ∷ rule lfiwzx 0xfc0007fe 0x7c0006ee 0x1 (ap_fp_reg_6_10 ∷ ap_reg_11_15 ∷ ap_reg_16_20 ∷ [])
    ∷ rule stfs 0xfc000000 0xd0000000 0x0 (ap_fp_reg_6_10 ∷ ap_offset_16_31 ∷ ap_reg_11_15 ∷ [])
    ∷ rule stfsu 0xfc000000 0xd4000000 0x0 (ap_fp_reg_6_10 ∷ ap_offset_16_31 ∷ ap_reg_11_15 ∷ [])
    ∷ rule stfsx 0xfc0007fe 0x7c00052e 0x1 (ap_fp_reg_6_10 ∷ ap_reg_11_15 ∷ ap_reg_16_20 ∷ [])
    ∷ rule stfsux 0xfc0007fe 0x7c00056e 0x1 (ap_fp_reg_6_10 ∷ ap_reg_11_15 ∷ ap_reg_16_20 ∷ [])
    ∷ rule stfd 0xfc000000 0xd8000000 0x0 (ap_fp_reg_6_10 ∷ ap_offset_16_31 ∷ ap_reg_11_15 ∷ [])
    ∷ rule stfdu 0xfc000000 0xdc000000 0x0 (ap_fp_reg_6_10 ∷ ap_offset_16_31 ∷ ap_reg_11_15 ∷ [])
    ∷ rule stfdx 0xfc0007fe 0x7c0005ae 0x1 (ap_fp_reg_6_10 ∷ ap_reg_11_15 ∷ ap_reg_16_20 ∷ [])
    ∷ []

-- ===== src/Asm/Formats/Part08.antt =====
-- power64asm/tables.go: the rules of instFormats from VCTSXS to DRSP.
use mathlib.Core.List.{List, [], ◌∷◌}
use power.Asm.InstFormat.{InstFormat, rule}
use power.Asm.Fields.{
  ap_vec_reg_6_10, ap_vec_reg_16_20, ap_imm_unsigned_11_15, ap_vec_reg_11_15, ap_imm_unsigned_16_16,
  ap_imm_unsigned_17_20, ap_vec_reg_21_25, ap_imm_unsigned_22_22, ap_fp_reg_6_10, ap_fp_reg_11_15,
  ap_fp_reg_16_20, ap_cond_reg_field_6_8, ap_imm_unsigned_16_21, ap_imm_signed_11_15,
  ap_imm_unsigned_21_22, ap_imm_unsigned_15_15,
}
use power.Asm.Op.Part06.{
  vctsxs, vctuxs, vcfsx, vcfux, vrfim, vrfin, vrfip, vrfiz, vcmpbfp, vcmpbfp_, vcmpeqfp, vcmpeqfp_,
  vcmpgefp, vcmpgefp_, vcmpgtfp, vcmpgtfp_, vexptefp, vlogefp, vrefp, vrsqrtefp, vcipher,
  vcipherlast, vncipher, vncipherlast, vsbox, vshasigmad, vshasigmaw, vpmsumb, vpmsumd, vpmsumh,
  vpmsumw, vpermxor, vgbbd, vclzb, vclzh, vclzw, vclzd, vpopcntb, vpopcntd, vpopcnth, vpopcntw,
  vbpermq, bcdadd_, bcdsub_, mtvscr, mfvscr, dadd, dadd_, dsub, dsub_, dmul, dmul_, ddiv, ddiv_,
  dcmpu, dcmpo, dtstdc, dtstdg, dtstex, dtstsf, dquai, dquai_, dqua, dqua_, drrnd,
}
use power.Asm.Op.Part07.{
  drrnd_, drintx, drintx_, drintn, drintn_, dctdp, dctdp_, dctqpq, dctqpq_, drsp,
}

unfoldable pub formats08 : List InstFormat
formats08 =
    rule vctsxs 0xfc0007ff 0x100003ca 0x0
      (ap_vec_reg_6_10 ∷ ap_vec_reg_16_20 ∷ ap_imm_unsigned_11_15 ∷ [])
    ∷ rule vctuxs 0xfc0007ff 0x1000038a 0x0
        (ap_vec_reg_6_10 ∷ ap_vec_reg_16_20 ∷ ap_imm_unsigned_11_15 ∷ [])
    ∷ rule vcfsx 0xfc0007ff 0x1000034a 0x0
        (ap_vec_reg_6_10 ∷ ap_vec_reg_16_20 ∷ ap_imm_unsigned_11_15 ∷ [])
    ∷ rule vcfux 0xfc0007ff 0x1000030a 0x0
        (ap_vec_reg_6_10 ∷ ap_vec_reg_16_20 ∷ ap_imm_unsigned_11_15 ∷ [])
    ∷ rule vrfim 0xfc0007ff 0x100002ca 0x1f0000 (ap_vec_reg_6_10 ∷ ap_vec_reg_16_20 ∷ [])
    ∷ rule vrfin 0xfc0007ff 0x1000020a 0x1f0000 (ap_vec_reg_6_10 ∷ ap_vec_reg_16_20 ∷ [])
    ∷ rule vrfip 0xfc0007ff 0x1000028a 0x1f0000 (ap_vec_reg_6_10 ∷ ap_vec_reg_16_20 ∷ [])
    ∷ rule vrfiz 0xfc0007ff 0x1000024a 0x1f0000 (ap_vec_reg_6_10 ∷ ap_vec_reg_16_20 ∷ [])
    ∷ rule vcmpbfp 0xfc0007ff 0x100003c6 0x0
        (ap_vec_reg_6_10 ∷ ap_vec_reg_11_15 ∷ ap_vec_reg_16_20 ∷ [])
    ∷ rule vcmpbfp_ 0xfc0007ff 0x100007c6 0x0
        (ap_vec_reg_6_10 ∷ ap_vec_reg_11_15 ∷ ap_vec_reg_16_20 ∷ [])
    ∷ rule vcmpeqfp 0xfc0007ff 0x100000c6 0x0
        (ap_vec_reg_6_10 ∷ ap_vec_reg_11_15 ∷ ap_vec_reg_16_20 ∷ [])
    ∷ rule vcmpeqfp_ 0xfc0007ff 0x100004c6 0x0
        (ap_vec_reg_6_10 ∷ ap_vec_reg_11_15 ∷ ap_vec_reg_16_20 ∷ [])
    ∷ rule vcmpgefp 0xfc0007ff 0x100001c6 0x0
        (ap_vec_reg_6_10 ∷ ap_vec_reg_11_15 ∷ ap_vec_reg_16_20 ∷ [])
    ∷ rule vcmpgefp_ 0xfc0007ff 0x100005c6 0x0
        (ap_vec_reg_6_10 ∷ ap_vec_reg_11_15 ∷ ap_vec_reg_16_20 ∷ [])
    ∷ rule vcmpgtfp 0xfc0007ff 0x100002c6 0x0
        (ap_vec_reg_6_10 ∷ ap_vec_reg_11_15 ∷ ap_vec_reg_16_20 ∷ [])
    ∷ rule vcmpgtfp_ 0xfc0007ff 0x100006c6 0x0
        (ap_vec_reg_6_10 ∷ ap_vec_reg_11_15 ∷ ap_vec_reg_16_20 ∷ [])
    ∷ rule vexptefp 0xfc0007ff 0x1000018a 0x1f0000 (ap_vec_reg_6_10 ∷ ap_vec_reg_16_20 ∷ [])
    ∷ rule vlogefp 0xfc0007ff 0x100001ca 0x1f0000 (ap_vec_reg_6_10 ∷ ap_vec_reg_16_20 ∷ [])
    ∷ rule vrefp 0xfc0007ff 0x1000010a 0x1f0000 (ap_vec_reg_6_10 ∷ ap_vec_reg_16_20 ∷ [])
    ∷ rule vrsqrtefp 0xfc0007ff 0x1000014a 0x1f0000 (ap_vec_reg_6_10 ∷ ap_vec_reg_16_20 ∷ [])
    ∷ rule vcipher 0xfc0007ff 0x10000508 0x0
        (ap_vec_reg_6_10 ∷ ap_vec_reg_11_15 ∷ ap_vec_reg_16_20 ∷ [])
    ∷ rule vcipherlast 0xfc0007ff 0x10000509 0x0
        (ap_vec_reg_6_10 ∷ ap_vec_reg_11_15 ∷ ap_vec_reg_16_20 ∷ [])
    ∷ rule vncipher 0xfc0007ff 0x10000548 0x0
        (ap_vec_reg_6_10 ∷ ap_vec_reg_11_15 ∷ ap_vec_reg_16_20 ∷ [])
    ∷ rule vncipherlast 0xfc0007ff 0x10000549 0x0
        (ap_vec_reg_6_10 ∷ ap_vec_reg_11_15 ∷ ap_vec_reg_16_20 ∷ [])
    ∷ rule vsbox 0xfc0007ff 0x100005c8 0xf800 (ap_vec_reg_6_10 ∷ ap_vec_reg_11_15 ∷ [])
    ∷ rule vshasigmad 0xfc0007ff 0x100006c2 0x0
        (ap_vec_reg_6_10 ∷ ap_vec_reg_11_15 ∷ ap_imm_unsigned_16_16 ∷ ap_imm_unsigned_17_20 ∷ [])
    ∷ rule vshasigmaw 0xfc0007ff 0x10000682 0x0
        (ap_vec_reg_6_10 ∷ ap_vec_reg_11_15 ∷ ap_imm_unsigned_16_16 ∷ ap_imm_unsigned_17_20 ∷ [])
    ∷ rule vpmsumb 0xfc0007ff 0x10000408 0x0
        (ap_vec_reg_6_10 ∷ ap_vec_reg_11_15 ∷ ap_vec_reg_16_20 ∷ [])
    ∷ rule vpmsumd 0xfc0007ff 0x100004c8 0x0
        (ap_vec_reg_6_10 ∷ ap_vec_reg_11_15 ∷ ap_vec_reg_16_20 ∷ [])
    ∷ rule vpmsumh 0xfc0007ff 0x10000448 0x0
        (ap_vec_reg_6_10 ∷ ap_vec_reg_11_15 ∷ ap_vec_reg_16_20 ∷ [])
    ∷ rule vpmsumw 0xfc0007ff 0x10000488 0x0
        (ap_vec_reg_6_10 ∷ ap_vec_reg_11_15 ∷ ap_vec_reg_16_20 ∷ [])
    ∷ rule vpermxor 0xfc00003f 0x1000002d 0x0
        (ap_vec_reg_6_10 ∷ ap_vec_reg_11_15 ∷ ap_vec_reg_16_20 ∷ ap_vec_reg_21_25 ∷ [])
    ∷ rule vgbbd 0xfc0007ff 0x1000050c 0x1f0000 (ap_vec_reg_6_10 ∷ ap_vec_reg_16_20 ∷ [])
    ∷ rule vclzb 0xfc0007ff 0x10000702 0x1f0000 (ap_vec_reg_6_10 ∷ ap_vec_reg_16_20 ∷ [])
    ∷ rule vclzh 0xfc0007ff 0x10000742 0x1f0000 (ap_vec_reg_6_10 ∷ ap_vec_reg_16_20 ∷ [])
    ∷ rule vclzw 0xfc0007ff 0x10000782 0x1f0000 (ap_vec_reg_6_10 ∷ ap_vec_reg_16_20 ∷ [])
    ∷ rule vclzd 0xfc0007ff 0x100007c2 0x1f0000 (ap_vec_reg_6_10 ∷ ap_vec_reg_16_20 ∷ [])
    ∷ rule vpopcntb 0xfc0007ff 0x10000703 0x1f0000 (ap_vec_reg_6_10 ∷ ap_vec_reg_16_20 ∷ [])
    ∷ rule vpopcntd 0xfc0007ff 0x100007c3 0x1f0000 (ap_vec_reg_6_10 ∷ ap_vec_reg_16_20 ∷ [])
    ∷ rule vpopcnth 0xfc0007ff 0x10000743 0x1f0000 (ap_vec_reg_6_10 ∷ ap_vec_reg_16_20 ∷ [])
    ∷ rule vpopcntw 0xfc0007ff 0x10000783 0x1f0000 (ap_vec_reg_6_10 ∷ ap_vec_reg_16_20 ∷ [])
    ∷ rule vbpermq 0xfc0007ff 0x1000054c 0x0
        (ap_vec_reg_6_10 ∷ ap_vec_reg_11_15 ∷ ap_vec_reg_16_20 ∷ [])
    ∷ rule bcdadd_ 0xfc0005ff 0x10000401 0x0
        (ap_vec_reg_6_10 ∷ ap_vec_reg_11_15 ∷ ap_vec_reg_16_20 ∷ ap_imm_unsigned_22_22 ∷ [])
    ∷ rule bcdsub_ 0xfc0005ff 0x10000441 0x0
        (ap_vec_reg_6_10 ∷ ap_vec_reg_11_15 ∷ ap_vec_reg_16_20 ∷ ap_imm_unsigned_22_22 ∷ [])
    ∷ rule mtvscr 0xfc0007ff 0x10000644 0x3ff0000 (ap_vec_reg_16_20 ∷ [])
    ∷ rule mfvscr 0xfc0007ff 0x10000604 0x1ff800 (ap_vec_reg_6_10 ∷ [])
    ∷ rule dadd 0xfc0007ff 0xec000004 0x0 (ap_fp_reg_6_10 ∷ ap_fp_reg_11_15 ∷ ap_fp_reg_16_20 ∷ [])
    ∷ rule dadd_ 0xfc0007ff 0xec000005 0x0 (ap_fp_reg_6_10 ∷ ap_fp_reg_11_15 ∷ ap_fp_reg_16_20 ∷ [])
    ∷ rule dsub 0xfc0007ff 0xec000404 0x0 (ap_fp_reg_6_10 ∷ ap_fp_reg_11_15 ∷ ap_fp_reg_16_20 ∷ [])
    ∷ rule dsub_ 0xfc0007ff 0xec000405 0x0 (ap_fp_reg_6_10 ∷ ap_fp_reg_11_15 ∷ ap_fp_reg_16_20 ∷ [])
    ∷ rule dmul 0xfc0007ff 0xec000044 0x0 (ap_fp_reg_6_10 ∷ ap_fp_reg_11_15 ∷ ap_fp_reg_16_20 ∷ [])
    ∷ rule dmul_ 0xfc0007ff 0xec000045 0x0 (ap_fp_reg_6_10 ∷ ap_fp_reg_11_15 ∷ ap_fp_reg_16_20 ∷ [])
    ∷ rule ddiv 0xfc0007ff 0xec000444 0x0 (ap_fp_reg_6_10 ∷ ap_fp_reg_11_15 ∷ ap_fp_reg_16_20 ∷ [])
    ∷ rule ddiv_ 0xfc0007ff 0xec000445 0x0 (ap_fp_reg_6_10 ∷ ap_fp_reg_11_15 ∷ ap_fp_reg_16_20 ∷ [])
    ∷ rule dcmpu 0xfc0007fe 0xec000504 0x600001
        (ap_cond_reg_field_6_8 ∷ ap_fp_reg_11_15 ∷ ap_fp_reg_16_20 ∷ [])
    ∷ rule dcmpo 0xfc0007fe 0xec000104 0x600001
        (ap_cond_reg_field_6_8 ∷ ap_fp_reg_11_15 ∷ ap_fp_reg_16_20 ∷ [])
    ∷ rule dtstdc 0xfc0003fe 0xec000184 0x600001
        (ap_cond_reg_field_6_8 ∷ ap_fp_reg_11_15 ∷ ap_imm_unsigned_16_21 ∷ [])
    ∷ rule dtstdg 0xfc0003fe 0xec0001c4 0x600001
        (ap_cond_reg_field_6_8 ∷ ap_fp_reg_11_15 ∷ ap_imm_unsigned_16_21 ∷ [])
    ∷ rule dtstex 0xfc0007fe 0xec000144 0x600001
        (ap_cond_reg_field_6_8 ∷ ap_fp_reg_11_15 ∷ ap_fp_reg_16_20 ∷ [])
    ∷ rule dtstsf 0xfc0007fe 0xec000544 0x600001
        (ap_cond_reg_field_6_8 ∷ ap_fp_reg_11_15 ∷ ap_fp_reg_16_20 ∷ [])
    ∷ rule dquai 0xfc0001ff 0xec000086 0x0
        (ap_imm_signed_11_15 ∷ ap_fp_reg_6_10 ∷ ap_fp_reg_16_20 ∷ ap_imm_unsigned_21_22 ∷ [])
    ∷ rule dquai_ 0xfc0001ff 0xec000087 0x0
        (ap_imm_signed_11_15 ∷ ap_fp_reg_6_10 ∷ ap_fp_reg_16_20 ∷ ap_imm_unsigned_21_22 ∷ [])
    ∷ rule dqua 0xfc0001ff 0xec000006 0x0
        (ap_fp_reg_6_10 ∷ ap_fp_reg_11_15 ∷ ap_fp_reg_16_20 ∷ ap_imm_unsigned_21_22 ∷ [])
    ∷ rule dqua_ 0xfc0001ff 0xec000007 0x0
        (ap_fp_reg_6_10 ∷ ap_fp_reg_11_15 ∷ ap_fp_reg_16_20 ∷ ap_imm_unsigned_21_22 ∷ [])
    ∷ rule drrnd 0xfc0001ff 0xec000046 0x0
        (ap_fp_reg_6_10 ∷ ap_fp_reg_11_15 ∷ ap_fp_reg_16_20 ∷ ap_imm_unsigned_21_22 ∷ [])
    ∷ rule drrnd_ 0xfc0001ff 0xec000047 0x0
        (ap_fp_reg_6_10 ∷ ap_fp_reg_11_15 ∷ ap_fp_reg_16_20 ∷ ap_imm_unsigned_21_22 ∷ [])
    ∷ rule drintx 0xfc0001ff 0xec0000c6 0x1e0000
        (ap_imm_unsigned_15_15 ∷ ap_fp_reg_6_10 ∷ ap_fp_reg_16_20 ∷ ap_imm_unsigned_21_22 ∷ [])
    ∷ rule drintx_ 0xfc0001ff 0xec0000c7 0x1e0000
        (ap_imm_unsigned_15_15 ∷ ap_fp_reg_6_10 ∷ ap_fp_reg_16_20 ∷ ap_imm_unsigned_21_22 ∷ [])
    ∷ rule drintn 0xfc0001ff 0xec0001c6 0x1e0000
        (ap_imm_unsigned_15_15 ∷ ap_fp_reg_6_10 ∷ ap_fp_reg_16_20 ∷ ap_imm_unsigned_21_22 ∷ [])
    ∷ rule drintn_ 0xfc0001ff 0xec0001c7 0x1e0000
        (ap_imm_unsigned_15_15 ∷ ap_fp_reg_6_10 ∷ ap_fp_reg_16_20 ∷ ap_imm_unsigned_21_22 ∷ [])
    ∷ rule dctdp 0xfc0007ff 0xec000204 0x1f0000 (ap_fp_reg_6_10 ∷ ap_fp_reg_16_20 ∷ [])
    ∷ rule dctdp_ 0xfc0007ff 0xec000205 0x1f0000 (ap_fp_reg_6_10 ∷ ap_fp_reg_16_20 ∷ [])
    ∷ rule dctqpq 0xfc0007ff 0xfc000204 0x1f0000 (ap_fp_reg_6_10 ∷ ap_fp_reg_16_20 ∷ [])
    ∷ rule dctqpq_ 0xfc0007ff 0xfc000205 0x1f0000 (ap_fp_reg_6_10 ∷ ap_fp_reg_16_20 ∷ [])
    ∷ rule drsp 0xfc0007ff 0xec000604 0x1f0000 (ap_fp_reg_6_10 ∷ ap_fp_reg_16_20 ∷ [])
    ∷ []

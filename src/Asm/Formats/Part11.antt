-- ===== src/Asm/Formats/Part11.antt =====
-- power64asm/tables.go: the rules of instFormats from XVRSPIZ to EVMHEGSMFAN.
use mathlib.Core.List.{List, [], ◌∷◌}
use power.Asm.InstFormat.{InstFormat, rule}
use power.Asm.Fields.{
  ap_vec_reg_31_31_6_10, ap_vec_reg_30_30_16_20, ap_vec_reg_29_29_11_15, ap_cond_reg_field_6_8,
  ap_imm_unsigned_22_23, ap_vec_reg_28_28_21_25, ap_imm_unsigned_14_15, ap_reg_6_10, ap_reg_11_15,
  ap_reg_16_20, ap_imm_unsigned_11_15, ap_imm_unsigned_16_20,
}
use power.Asm.Op.Part08.{
  xvrspiz, xvrsqrtedp, xvrsqrtesp, xvsqrtdp, xvsqrtsp, xvsubdp, xvsubsp, xvtdivdp, xvtdivsp,
  xvtsqrtdp, xvtsqrtsp, xxland, xxlandc, xxleqv, xxlnand, xxlorc, xxlnor, xxlor, xxlxor, xxmrghw,
  xxmrglw, xxpermdi, xxsel, xxsldwi, xxspltw, brinc, evabs, evaddiw, evaddsmiaaw, evaddssiaaw,
}
use power.Asm.Op.Part09.{
  evaddumiaaw, evaddusiaaw, evaddw, evand, evcmpeq, evandc, evcmpgts, evcmpgtu, evcmpltu, evcmplts,
  evcntlsw, evcntlzw, evdivws, evdivwu, eveqv, evextsb, evextsh, evldd, evldh, evlddx, evldhx,
  evldw, evlhhesplat, evldwx, evlhhesplatx, evlhhossplat, evlhhousplat, evlhhossplatx,
  evlhhousplatx, evlwhe, evlwhos, evlwhex, evlwhosx, evlwhou, evlwhsplat, evlwhoux, evlwhsplatx,
  evlwwsplat, evmergehi, evlwwsplatx, evmergelo, evmergehilo, evmhegsmfaa, evmergelohi, evmhegsmfan,
}

unfoldable pub formats11 : List InstFormat
formats11 =
    rule xvrspiz 0xfc0007fc 0xf0000264 0x1f0000
      (ap_vec_reg_31_31_6_10 ∷ ap_vec_reg_30_30_16_20 ∷ [])
    ∷ rule xvrsqrtedp 0xfc0007fc 0xf0000328 0x1f0000
        (ap_vec_reg_31_31_6_10 ∷ ap_vec_reg_30_30_16_20 ∷ [])
    ∷ rule xvrsqrtesp 0xfc0007fc 0xf0000228 0x1f0000
        (ap_vec_reg_31_31_6_10 ∷ ap_vec_reg_30_30_16_20 ∷ [])
    ∷ rule xvsqrtdp 0xfc0007fc 0xf000032c 0x1f0000
        (ap_vec_reg_31_31_6_10 ∷ ap_vec_reg_30_30_16_20 ∷ [])
    ∷ rule xvsqrtsp 0xfc0007fc 0xf000022c 0x1f0000
        (ap_vec_reg_31_31_6_10 ∷ ap_vec_reg_30_30_16_20 ∷ [])
    ∷ rule xvsubdp 0xfc0007f8 0xf0000340 0x0
        (ap_vec_reg_31_31_6_10 ∷ ap_vec_reg_29_29_11_15 ∷ ap_vec_reg_30_30_16_20 ∷ [])
    ∷ rule xvsubsp 0xfc0007f8 0xf0000240 0x0
        (ap_vec_reg_31_31_6_10 ∷ ap_vec_reg_29_29_11_15 ∷ ap_vec_reg_30_30_16_20 ∷ [])
    ∷ rule xvtdivdp 0xfc0007f8 0xf00003e8 0x600001
        (ap_cond_reg_field_6_8 ∷ ap_vec_reg_29_29_11_15 ∷ ap_vec_reg_30_30_16_20 ∷ [])
    ∷ rule xvtdivsp 0xfc0007f8 0xf00002e8 0x600001
        (ap_cond_reg_field_6_8 ∷ ap_vec_reg_29_29_11_15 ∷ ap_vec_reg_30_30_16_20 ∷ [])
    ∷ rule xvtsqrtdp 0xfc0007fc 0xf00003a8 0x7f0001
        (ap_cond_reg_field_6_8 ∷ ap_vec_reg_30_30_16_20 ∷ [])
    ∷ rule xvtsqrtsp 0xfc0007fc 0xf00002a8 0x7f0001
        (ap_cond_reg_field_6_8 ∷ ap_vec_reg_30_30_16_20 ∷ [])
    ∷ rule xxland 0xfc0007f8 0xf0000410 0x0
        (ap_vec_reg_31_31_6_10 ∷ ap_vec_reg_29_29_11_15 ∷ ap_vec_reg_30_30_16_20 ∷ [])
    ∷ rule xxlandc 0xfc0007f8 0xf0000450 0x0
        (ap_vec_reg_31_31_6_10 ∷ ap_vec_reg_29_29_11_15 ∷ ap_vec_reg_30_30_16_20 ∷ [])
    ∷ rule xxleqv 0xfc0007f8 0xf00005d0 0x0
        (ap_vec_reg_31_31_6_10 ∷ ap_vec_reg_29_29_11_15 ∷ ap_vec_reg_30_30_16_20 ∷ [])
    ∷ rule xxlnand 0xfc0007f8 0xf0000590 0x0
        (ap_vec_reg_31_31_6_10 ∷ ap_vec_reg_29_29_11_15 ∷ ap_vec_reg_30_30_16_20 ∷ [])
    ∷ rule xxlorc 0xfc0007f8 0xf0000550 0x0
        (ap_vec_reg_31_31_6_10 ∷ ap_vec_reg_29_29_11_15 ∷ ap_vec_reg_30_30_16_20 ∷ [])
    ∷ rule xxlnor 0xfc0007f8 0xf0000510 0x0
        (ap_vec_reg_31_31_6_10 ∷ ap_vec_reg_29_29_11_15 ∷ ap_vec_reg_30_30_16_20 ∷ [])
    ∷ rule xxlor 0xfc0007f8 0xf0000490 0x0
        (ap_vec_reg_31_31_6_10 ∷ ap_vec_reg_29_29_11_15 ∷ ap_vec_reg_30_30_16_20 ∷ [])
    ∷ rule xxlxor 0xfc0007f8 0xf00004d0 0x0
        (ap_vec_reg_31_31_6_10 ∷ ap_vec_reg_29_29_11_15 ∷ ap_vec_reg_30_30_16_20 ∷ [])
    ∷ rule xxmrghw 0xfc0007f8 0xf0000090 0x0
        (ap_vec_reg_31_31_6_10 ∷ ap_vec_reg_29_29_11_15 ∷ ap_vec_reg_30_30_16_20 ∷ [])
    ∷ rule xxmrglw 0xfc0007f8 0xf0000190 0x0
        (ap_vec_reg_31_31_6_10 ∷ ap_vec_reg_29_29_11_15 ∷ ap_vec_reg_30_30_16_20 ∷ [])
    ∷ rule xxpermdi 0xfc0004f8 0xf0000050 0x0 (
        ap_vec_reg_31_31_6_10 ∷ ap_vec_reg_29_29_11_15 ∷ ap_vec_reg_30_30_16_20
        ∷ ap_imm_unsigned_22_23 ∷ [])
    ∷ rule xxsel 0xfc000030 0xf0000030 0x0 (
        ap_vec_reg_31_31_6_10 ∷ ap_vec_reg_29_29_11_15 ∷ ap_vec_reg_30_30_16_20
        ∷ ap_vec_reg_28_28_21_25 ∷ [])
    ∷ rule xxsldwi 0xfc0004f8 0xf0000010 0x0 (
        ap_vec_reg_31_31_6_10 ∷ ap_vec_reg_29_29_11_15 ∷ ap_vec_reg_30_30_16_20
        ∷ ap_imm_unsigned_22_23 ∷ [])
    ∷ rule xxspltw 0xfc0007fc 0xf0000290 0x1c0000
        (ap_vec_reg_31_31_6_10 ∷ ap_vec_reg_30_30_16_20 ∷ ap_imm_unsigned_14_15 ∷ [])
    ∷ rule brinc 0xfc0007ff 0x1000020f 0x0 (ap_reg_6_10 ∷ ap_reg_11_15 ∷ ap_reg_16_20 ∷ [])
    ∷ rule evabs 0xfc0007ff 0x10000208 0xf800 (ap_reg_6_10 ∷ ap_reg_11_15 ∷ [])
    ∷ rule evaddiw 0xfc0007ff 0x10000202 0x0
        (ap_reg_6_10 ∷ ap_reg_16_20 ∷ ap_imm_unsigned_11_15 ∷ [])
    ∷ rule evaddsmiaaw 0xfc0007ff 0x100004c9 0xf800 (ap_reg_6_10 ∷ ap_reg_11_15 ∷ [])
    ∷ rule evaddssiaaw 0xfc0007ff 0x100004c1 0xf800 (ap_reg_6_10 ∷ ap_reg_11_15 ∷ [])
    ∷ rule evaddumiaaw 0xfc0007ff 0x100004c8 0xf800 (ap_reg_6_10 ∷ ap_reg_11_15 ∷ [])
    ∷ rule evaddusiaaw 0xfc0007ff 0x100004c0 0xf800 (ap_reg_6_10 ∷ ap_reg_11_15 ∷ [])
    ∷ rule evaddw 0xfc0007ff 0x10000200 0x0 (ap_reg_6_10 ∷ ap_reg_11_15 ∷ ap_reg_16_20 ∷ [])
    ∷ rule evand 0xfc0007ff 0x10000211 0x0 (ap_reg_6_10 ∷ ap_reg_11_15 ∷ ap_reg_16_20 ∷ [])
    ∷ rule evcmpeq 0xfc0007ff 0x10000234 0x600000
        (ap_cond_reg_field_6_8 ∷ ap_reg_11_15 ∷ ap_reg_16_20 ∷ [])
    ∷ rule evandc 0xfc0007ff 0x10000212 0x0 (ap_reg_6_10 ∷ ap_reg_11_15 ∷ ap_reg_16_20 ∷ [])
    ∷ rule evcmpgts 0xfc0007ff 0x10000231 0x600000
        (ap_cond_reg_field_6_8 ∷ ap_reg_11_15 ∷ ap_reg_16_20 ∷ [])
    ∷ rule evcmpgtu 0xfc0007ff 0x10000230 0x600000
        (ap_cond_reg_field_6_8 ∷ ap_reg_11_15 ∷ ap_reg_16_20 ∷ [])
    ∷ rule evcmpltu 0xfc0007ff 0x10000232 0x600000
        (ap_cond_reg_field_6_8 ∷ ap_reg_11_15 ∷ ap_reg_16_20 ∷ [])
    ∷ rule evcmplts 0xfc0007ff 0x10000233 0x600000
        (ap_cond_reg_field_6_8 ∷ ap_reg_11_15 ∷ ap_reg_16_20 ∷ [])
    ∷ rule evcntlsw 0xfc0007ff 0x1000020e 0xf800 (ap_reg_6_10 ∷ ap_reg_11_15 ∷ [])
    ∷ rule evcntlzw 0xfc0007ff 0x1000020d 0xf800 (ap_reg_6_10 ∷ ap_reg_11_15 ∷ [])
    ∷ rule evdivws 0xfc0007ff 0x100004c6 0x0 (ap_reg_6_10 ∷ ap_reg_11_15 ∷ ap_reg_16_20 ∷ [])
    ∷ rule evdivwu 0xfc0007ff 0x100004c7 0x0 (ap_reg_6_10 ∷ ap_reg_11_15 ∷ ap_reg_16_20 ∷ [])
    ∷ rule eveqv 0xfc0007ff 0x10000219 0x0 (ap_reg_6_10 ∷ ap_reg_11_15 ∷ ap_reg_16_20 ∷ [])
    ∷ rule evextsb 0xfc0007ff 0x1000020a 0xf800 (ap_reg_6_10 ∷ ap_reg_11_15 ∷ [])
    ∷ rule evextsh 0xfc0007ff 0x1000020b 0xf800 (ap_reg_6_10 ∷ ap_reg_11_15 ∷ [])
    ∷ rule evldd 0xfc0007ff 0x10000301 0x0 (ap_reg_6_10 ∷ ap_imm_unsigned_16_20 ∷ ap_reg_11_15 ∷ [])
    ∷ rule evldh 0xfc0007ff 0x10000305 0x0 (ap_reg_6_10 ∷ ap_imm_unsigned_16_20 ∷ ap_reg_11_15 ∷ [])
    ∷ rule evlddx 0xfc0007ff 0x10000300 0x0 (ap_reg_6_10 ∷ ap_reg_11_15 ∷ ap_reg_16_20 ∷ [])
    ∷ rule evldhx 0xfc0007ff 0x10000304 0x0 (ap_reg_6_10 ∷ ap_reg_11_15 ∷ ap_reg_16_20 ∷ [])
    ∷ rule evldw 0xfc0007ff 0x10000303 0x0 (ap_reg_6_10 ∷ ap_imm_unsigned_16_20 ∷ ap_reg_11_15 ∷ [])
    ∷ rule evlhhesplat 0xfc0007ff 0x10000309 0x0
        (ap_reg_6_10 ∷ ap_imm_unsigned_16_20 ∷ ap_reg_11_15 ∷ [])
    ∷ rule evldwx 0xfc0007ff 0x10000302 0x0 (ap_reg_6_10 ∷ ap_reg_11_15 ∷ ap_reg_16_20 ∷ [])
    ∷ rule evlhhesplatx 0xfc0007ff 0x10000308 0x0 (ap_reg_6_10 ∷ ap_reg_11_15 ∷ ap_reg_16_20 ∷ [])
    ∷ rule evlhhossplat 0xfc0007ff 0x1000030f 0x0
        (ap_reg_6_10 ∷ ap_imm_unsigned_16_20 ∷ ap_reg_11_15 ∷ [])
    ∷ rule evlhhousplat 0xfc0007ff 0x1000030d 0x0
        (ap_reg_6_10 ∷ ap_imm_unsigned_16_20 ∷ ap_reg_11_15 ∷ [])
    ∷ rule evlhhossplatx 0xfc0007ff 0x1000030e 0x0 (ap_reg_6_10 ∷ ap_reg_11_15 ∷ ap_reg_16_20 ∷ [])
    ∷ rule evlhhousplatx 0xfc0007ff 0x1000030c 0x0 (ap_reg_6_10 ∷ ap_reg_11_15 ∷ ap_reg_16_20 ∷ [])
    ∷ rule evlwhe 0xfc0007ff 0x10000311 0x0
        (ap_reg_6_10 ∷ ap_imm_unsigned_16_20 ∷ ap_reg_11_15 ∷ [])
    ∷ rule evlwhos 0xfc0007ff 0x10000317 0x0
        (ap_reg_6_10 ∷ ap_imm_unsigned_16_20 ∷ ap_reg_11_15 ∷ [])
    ∷ rule evlwhex 0xfc0007ff 0x10000310 0x0 (ap_reg_6_10 ∷ ap_reg_11_15 ∷ ap_reg_16_20 ∷ [])
    ∷ rule evlwhosx 0xfc0007ff 0x10000316 0x0 (ap_reg_6_10 ∷ ap_reg_11_15 ∷ ap_reg_16_20 ∷ [])
    ∷ rule evlwhou 0xfc0007ff 0x10000315 0x0
        (ap_reg_6_10 ∷ ap_imm_unsigned_16_20 ∷ ap_reg_11_15 ∷ [])
    ∷ rule evlwhsplat 0xfc0007ff 0x1000031d 0x0
        (ap_reg_6_10 ∷ ap_imm_unsigned_16_20 ∷ ap_reg_11_15 ∷ [])
    ∷ rule evlwhoux 0xfc0007ff 0x10000314 0x0 (ap_reg_6_10 ∷ ap_reg_11_15 ∷ ap_reg_16_20 ∷ [])
    ∷ rule evlwhsplatx 0xfc0007ff 0x1000031c 0x0 (ap_reg_6_10 ∷ ap_reg_11_15 ∷ ap_reg_16_20 ∷ [])
    ∷ rule evlwwsplat 0xfc0007ff 0x10000319 0x0
        (ap_reg_6_10 ∷ ap_imm_unsigned_16_20 ∷ ap_reg_11_15 ∷ [])
    ∷ rule evmergehi 0xfc0007ff 0x1000022c 0x0 (ap_reg_6_10 ∷ ap_reg_11_15 ∷ ap_reg_16_20 ∷ [])
    ∷ rule evlwwsplatx 0xfc0007ff 0x10000318 0x0 (ap_reg_6_10 ∷ ap_reg_11_15 ∷ ap_reg_16_20 ∷ [])
    ∷ rule evmergelo 0xfc0007ff 0x1000022d 0x0 (ap_reg_6_10 ∷ ap_reg_11_15 ∷ ap_reg_16_20 ∷ [])
    ∷ rule evmergehilo 0xfc0007ff 0x1000022e 0x0 (ap_reg_6_10 ∷ ap_reg_11_15 ∷ ap_reg_16_20 ∷ [])
    ∷ rule evmhegsmfaa 0xfc0007ff 0x1000052b 0x0 (ap_reg_6_10 ∷ ap_reg_11_15 ∷ ap_reg_16_20 ∷ [])
    ∷ rule evmergelohi 0xfc0007ff 0x1000022f 0x0 (ap_reg_6_10 ∷ ap_reg_11_15 ∷ ap_reg_16_20 ∷ [])
    ∷ rule evmhegsmfan 0xfc0007ff 0x100005ab 0x0 (ap_reg_6_10 ∷ ap_reg_11_15 ∷ ap_reg_16_20 ∷ [])
    ∷ []

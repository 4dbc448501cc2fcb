-- ===== src/Asm/Formats/Part10.antt =====
-- power64asm/tables.go: the rules of instFormats from XSRSQRTEDP to XVRSPIP.
use mathlib.Core.List.{List, [], ◌∷◌}
use power.Asm.InstFormat.{InstFormat, rule}
use power.Asm.Fields.{
  ap_vec_reg_31_31_6_10, ap_vec_reg_30_30_16_20, ap_vec_reg_29_29_11_15, ap_cond_reg_field_6_8,
}
use power.Asm.Op.Part07.{
  xsrsqrtedp, xsrsqrtesp, xssqrtdp, xssqrtsp, xssubdp, xssubsp, xstdivdp, xstsqrtdp, xvabsdp,
  xvabssp,
}
use power.Asm.Op.Part08.{
  xvadddp, xvaddsp, xvcmpeqdp, xvcmpeqdp_, xvcmpeqsp, xvcmpeqsp_, xvcmpgedp, xvcmpgedp_, xvcmpgesp,
  xvcmpgesp_, xvcmpgtdp, xvcmpgtdp_, xvcmpgtsp, xvcmpgtsp_, xvcpsgndp, xvcpsgnsp, xvcvdpsp,
  xvcvdpsxds, xvcvdpsxws, xvcvdpuxds, xvcvdpuxws, xvcvspdp, xvcvspsxds, xvcvspsxws, xvcvspuxds,
  xvcvspuxws, xvcvsxddp, xvcvsxdsp, xvcvsxwdp, xvcvsxwsp, xvcvuxddp, xvcvuxdsp, xvcvuxwdp,
  xvcvuxwsp, xvdivdp, xvdivsp, xvmaddadp, xvmaddasp, xvmaxdp, xvmaxsp, xvmindp, xvminsp, xvmsubadp,
  xvmsubasp, xvmuldp, xvmulsp, xvnabsdp, xvnabssp, xvnegdp, xvnegsp, xvnmaddadp, xvnmaddasp,
  xvnmsubadp, xvnmsubasp, xvrdpi, xvrdpic, xvrdpim, xvrdpip, xvrdpiz, xvredp, xvresp, xvrspi,
  xvrspic, xvrspim, xvrspip,
}

unfoldable pub formats10 : List InstFormat
formats10 =
    rule xsrsqrtedp 0xfc0007fc 0xf0000128 0x1f0000
      (ap_vec_reg_31_31_6_10 ∷ ap_vec_reg_30_30_16_20 ∷ [])
    ∷ rule xsrsqrtesp 0xfc0007fc 0xf0000028 0x1f0000
        (ap_vec_reg_31_31_6_10 ∷ ap_vec_reg_30_30_16_20 ∷ [])
    ∷ rule xssqrtdp 0xfc0007fc 0xf000012c 0x1f0000
        (ap_vec_reg_31_31_6_10 ∷ ap_vec_reg_30_30_16_20 ∷ [])
    ∷ rule xssqrtsp 0xfc0007fc 0xf000002c 0x1f0000
        (ap_vec_reg_31_31_6_10 ∷ ap_vec_reg_30_30_16_20 ∷ [])
    ∷ rule xssubdp 0xfc0007f8 0xf0000140 0x0
        (ap_vec_reg_31_31_6_10 ∷ ap_vec_reg_29_29_11_15 ∷ ap_vec_reg_30_30_16_20 ∷ [])
    ∷ rule xssubsp 0xfc0007f8 0xf0000040 0x0
        (ap_vec_reg_31_31_6_10 ∷ ap_vec_reg_29_29_11_15 ∷ ap_vec_reg_30_30_16_20 ∷ [])
    ∷ rule xstdivdp 0xfc0007f8 0xf00001e8 0x600001
        (ap_cond_reg_field_6_8 ∷ ap_vec_reg_29_29_11_15 ∷ ap_vec_reg_30_30_16_20 ∷ [])
    ∷ rule xstsqrtdp 0xfc0007fc 0xf00001a8 0x7f0001
        (ap_cond_reg_field_6_8 ∷ ap_vec_reg_30_30_16_20 ∷ [])
    ∷ rule xvabsdp 0xfc0007fc 0xf0000764 0x1f0000
        (ap_vec_reg_31_31_6_10 ∷ ap_vec_reg_30_30_16_20 ∷ [])
    ∷ rule xvabssp 0xfc0007fc 0xf0000664 0x1f0000
        (ap_vec_reg_31_31_6_10 ∷ ap_vec_reg_30_30_16_20 ∷ [])
    ∷ rule xvadddp 0xfc0007f8 0xf0000300 0x0
        (ap_vec_reg_31_31_6_10 ∷ ap_vec_reg_29_29_11_15 ∷ ap_vec_reg_30_30_16_20 ∷ [])
    ∷ rule xvaddsp 0xfc0007f8 0xf0000200 0x0
        (ap_vec_reg_31_31_6_10 ∷ ap_vec_reg_29_29_11_15 ∷ ap_vec_reg_30_30_16_20 ∷ [])
    ∷ rule xvcmpeqdp 0xfc0007f8 0xf0000318 0x0
        (ap_vec_reg_31_31_6_10 ∷ ap_vec_reg_29_29_11_15 ∷ ap_vec_reg_30_30_16_20 ∷ [])
    ∷ rule xvcmpeqdp_ 0xfc0007f8 0xf0000718 0x0
        (ap_vec_reg_31_31_6_10 ∷ ap_vec_reg_29_29_11_15 ∷ ap_vec_reg_30_30_16_20 ∷ [])
    ∷ rule xvcmpeqsp 0xfc0007f8 0xf0000218 0x0
        (ap_vec_reg_31_31_6_10 ∷ ap_vec_reg_29_29_11_15 ∷ ap_vec_reg_30_30_16_20 ∷ [])
    ∷ rule xvcmpeqsp_ 0xfc0007f8 0xf0000618 0x0
        (ap_vec_reg_31_31_6_10 ∷ ap_vec_reg_29_29_11_15 ∷ ap_vec_reg_30_30_16_20 ∷ [])
    ∷ rule xvcmpgedp 0xfc0007f8 0xf0000398 0x0
        (ap_vec_reg_31_31_6_10 ∷ ap_vec_reg_29_29_11_15 ∷ ap_vec_reg_30_30_16_20 ∷ [])
    ∷ rule xvcmpgedp_ 0xfc0007f8 0xf0000798 0x0
        (ap_vec_reg_31_31_6_10 ∷ ap_vec_reg_29_29_11_15 ∷ ap_vec_reg_30_30_16_20 ∷ [])
    ∷ rule xvcmpgesp 0xfc0007f8 0xf0000298 0x0
        (ap_vec_reg_31_31_6_10 ∷ ap_vec_reg_29_29_11_15 ∷ ap_vec_reg_30_30_16_20 ∷ [])
    ∷ rule xvcmpgesp_ 0xfc0007f8 0xf0000698 0x0
        (ap_vec_reg_31_31_6_10 ∷ ap_vec_reg_29_29_11_15 ∷ ap_vec_reg_30_30_16_20 ∷ [])
    ∷ rule xvcmpgtdp 0xfc0007f8 0xf0000358 0x0
        (ap_vec_reg_31_31_6_10 ∷ ap_vec_reg_29_29_11_15 ∷ ap_vec_reg_30_30_16_20 ∷ [])
    ∷ rule xvcmpgtdp_ 0xfc0007f8 0xf0000758 0x0
        (ap_vec_reg_31_31_6_10 ∷ ap_vec_reg_29_29_11_15 ∷ ap_vec_reg_30_30_16_20 ∷ [])
    ∷ rule xvcmpgtsp 0xfc0007f8 0xf0000258 0x0
        (ap_vec_reg_31_31_6_10 ∷ ap_vec_reg_29_29_11_15 ∷ ap_vec_reg_30_30_16_20 ∷ [])
    ∷ rule xvcmpgtsp_ 0xfc0007f8 0xf0000658 0x0
        (ap_vec_reg_31_31_6_10 ∷ ap_vec_reg_29_29_11_15 ∷ ap_vec_reg_30_30_16_20 ∷ [])
    ∷ rule xvcpsgndp 0xfc0007f8 0xf0000780 0x0
        (ap_vec_reg_31_31_6_10 ∷ ap_vec_reg_29_29_11_15 ∷ ap_vec_reg_30_30_16_20 ∷ [])
    ∷ rule xvcpsgnsp 0xfc0007f8 0xf0000680 0x0
        (ap_vec_reg_31_31_6_10 ∷ ap_vec_reg_29_29_11_15 ∷ ap_vec_reg_30_30_16_20 ∷ [])
    ∷ rule xvcvdpsp 0xfc0007fc 0xf0000624 0x1f0000
        (ap_vec_reg_31_31_6_10 ∷ ap_vec_reg_30_30_16_20 ∷ [])
    ∷ rule xvcvdpsxds 0xfc0007fc 0xf0000760 0x1f0000
        (ap_vec_reg_31_31_6_10 ∷ ap_vec_reg_30_30_16_20 ∷ [])
    ∷ rule xvcvdpsxws 0xfc0007fc 0xf0000360 0x1f0000
        (ap_vec_reg_31_31_6_10 ∷ ap_vec_reg_30_30_16_20 ∷ [])
    ∷ rule xvcvdpuxds 0xfc0007fc 0xf0000720 0x1f0000
        (ap_vec_reg_31_31_6_10 ∷ ap_vec_reg_30_30_16_20 ∷ [])
    ∷ rule xvcvdpuxws 0xfc0007fc 0xf0000320 0x1f0000
        (ap_vec_reg_31_31_6_10 ∷ ap_vec_reg_30_30_16_20 ∷ [])
    ∷ rule xvcvspdp 0xfc0007fc 0xf0000724 0x1f0000
        (ap_vec_reg_31_31_6_10 ∷ ap_vec_reg_30_30_16_20 ∷ [])
    ∷ rule xvcvspsxds 0xfc0007fc 0xf0000660 0x1f0000
        (ap_vec_reg_31_31_6_10 ∷ ap_vec_reg_30_30_16_20 ∷ [])
    ∷ rule xvcvspsxws 0xfc0007fc 0xf0000260 0x1f0000
        (ap_vec_reg_31_31_6_10 ∷ ap_vec_reg_30_30_16_20 ∷ [])
    ∷ rule xvcvspuxds 0xfc0007fc 0xf0000620 0x1f0000
        (ap_vec_reg_31_31_6_10 ∷ ap_vec_reg_30_30_16_20 ∷ [])
    ∷ rule xvcvspuxws 0xfc0007fc 0xf0000220 0x1f0000
        (ap_vec_reg_31_31_6_10 ∷ ap_vec_reg_30_30_16_20 ∷ [])
    ∷ rule xvcvsxddp 0xfc0007fc 0xf00007e0 0x1f0000
        (ap_vec_reg_31_31_6_10 ∷ ap_vec_reg_30_30_16_20 ∷ [])
    ∷ rule xvcvsxdsp 0xfc0007fc 0xf00006e0 0x1f0000
        (ap_vec_reg_31_31_6_10 ∷ ap_vec_reg_30_30_16_20 ∷ [])
    ∷ rule xvcvsxwdp 0xfc0007fc 0xf00003e0 0x1f0000
        (ap_vec_reg_31_31_6_10 ∷ ap_vec_reg_30_30_16_20 ∷ [])
    ∷ rule xvcvsxwsp 0xfc0007fc 0xf00002e0 0x1f0000
        (ap_vec_reg_31_31_6_10 ∷ ap_vec_reg_30_30_16_20 ∷ [])
    ∷ rule xvcvuxddp 0xfc0007fc 0xf00007a0 0x1f0000
        (ap_vec_reg_31_31_6_10 ∷ ap_vec_reg_30_30_16_20 ∷ [])
    ∷ rule xvcvuxdsp 0xfc0007fc 0xf00006a0 0x1f0000
        (ap_vec_reg_31_31_6_10 ∷ ap_vec_reg_30_30_16_20 ∷ [])
    ∷ rule xvcvuxwdp 0xfc0007fc 0xf00003a0 0x1f0000
        (ap_vec_reg_31_31_6_10 ∷ ap_vec_reg_30_30_16_20 ∷ [])
    ∷ rule xvcvuxwsp 0xfc0007fc 0xf00002a0 0x1f0000
        (ap_vec_reg_31_31_6_10 ∷ ap_vec_reg_30_30_16_20 ∷ [])
    ∷ rule xvdivdp 0xfc0007f8 0xf00003c0 0x0
        (ap_vec_reg_31_31_6_10 ∷ ap_vec_reg_29_29_11_15 ∷ ap_vec_reg_30_30_16_20 ∷ [])
    ∷ rule xvdivsp 0xfc0007f8 0xf00002c0 0x0
        (ap_vec_reg_31_31_6_10 ∷ ap_vec_reg_29_29_11_15 ∷ ap_vec_reg_30_30_16_20 ∷ [])
    ∷ rule xvmaddadp 0xfc0007f8 0xf0000308 0x0
        (ap_vec_reg_31_31_6_10 ∷ ap_vec_reg_29_29_11_15 ∷ ap_vec_reg_30_30_16_20 ∷ [])
    ∷ rule xvmaddasp 0xfc0007f8 0xf0000208 0x0
        (ap_vec_reg_31_31_6_10 ∷ ap_vec_reg_29_29_11_15 ∷ ap_vec_reg_30_30_16_20 ∷ [])
    ∷ rule xvmaxdp 0xfc0007f8 0xf0000700 0x0
        (ap_vec_reg_31_31_6_10 ∷ ap_vec_reg_29_29_11_15 ∷ ap_vec_reg_30_30_16_20 ∷ [])
    ∷ rule xvmaxsp 0xfc0007f8 0xf0000600 0x0
        (ap_vec_reg_31_31_6_10 ∷ ap_vec_reg_29_29_11_15 ∷ ap_vec_reg_30_30_16_20 ∷ [])
    ∷ rule xvmindp 0xfc0007f8 0xf0000740 0x0
        (ap_vec_reg_31_31_6_10 ∷ ap_vec_reg_29_29_11_15 ∷ ap_vec_reg_30_30_16_20 ∷ [])
    ∷ rule xvminsp 0xfc0007f8 0xf0000640 0x0
        (ap_vec_reg_31_31_6_10 ∷ ap_vec_reg_29_29_11_15 ∷ ap_vec_reg_30_30_16_20 ∷ [])
    ∷ rule xvmsubadp 0xfc0007f8 0xf0000388 0x0
        (ap_vec_reg_31_31_6_10 ∷ ap_vec_reg_29_29_11_15 ∷ ap_vec_reg_30_30_16_20 ∷ [])
    ∷ rule xvmsubasp 0xfc0007f8 0xf0000288 0x0
        (ap_vec_reg_31_31_6_10 ∷ ap_vec_reg_29_29_11_15 ∷ ap_vec_reg_30_30_16_20 ∷ [])
    ∷ rule xvmuldp 0xfc0007f8 0xf0000380 0x0
        (ap_vec_reg_31_31_6_10 ∷ ap_vec_reg_29_29_11_15 ∷ ap_vec_reg_30_30_16_20 ∷ [])
    ∷ rule xvmulsp 0xfc0007f8 0xf0000280 0x0
        (ap_vec_reg_31_31_6_10 ∷ ap_vec_reg_29_29_11_15 ∷ ap_vec_reg_30_30_16_20 ∷ [])
    ∷ rule xvnabsdp 0xfc0007fc 0xf00007a4 0x1f0000
        (ap_vec_reg_31_31_6_10 ∷ ap_vec_reg_30_30_16_20 ∷ [])
    ∷ rule xvnabssp 0xfc0007fc 0xf00006a4 0x1f0000
        (ap_vec_reg_31_31_6_10 ∷ ap_vec_reg_30_30_16_20 ∷ [])
    ∷ rule xvnegdp 0xfc0007fc 0xf00007e4 0x1f0000
        (ap_vec_reg_31_31_6_10 ∷ ap_vec_reg_30_30_16_20 ∷ [])
    ∷ rule xvnegsp 0xfc0007fc 0xf00006e4 0x1f0000
        (ap_vec_reg_31_31_6_10 ∷ ap_vec_reg_30_30_16_20 ∷ [])
    ∷ rule xvnmaddadp 0xfc0007f8 0xf0000708 0x0
        (ap_vec_reg_31_31_6_10 ∷ ap_vec_reg_29_29_11_15 ∷ ap_vec_reg_30_30_16_20 ∷ [])
    ∷ rule xvnmaddasp 0xfc0007f8 0xf0000608 0x0
        (ap_vec_reg_31_31_6_10 ∷ ap_vec_reg_29_29_11_15 ∷ ap_vec_reg_30_30_16_20 ∷ [])
    ∷ rule xvnmsubadp 0xfc0007f8 0xf0000788 0x0
        (ap_vec_reg_31_31_6_10 ∷ ap_vec_reg_29_29_11_15 ∷ ap_vec_reg_30_30_16_20 ∷ [])
    ∷ rule xvnmsubasp 0xfc0007f8 0xf0000688 0x0
        (ap_vec_reg_31_31_6_10 ∷ ap_vec_reg_29_29_11_15 ∷ ap_vec_reg_30_30_16_20 ∷ [])
    ∷ rule xvrdpi 0xfc0007fc 0xf0000324 0x1f0000
        (ap_vec_reg_31_31_6_10 ∷ ap_vec_reg_30_30_16_20 ∷ [])
    ∷ rule xvrdpic 0xfc0007fc 0xf00003ac 0x1f0000
        (ap_vec_reg_31_31_6_10 ∷ ap_vec_reg_30_30_16_20 ∷ [])
    ∷ rule xvrdpim 0xfc0007fc 0xf00003e4 0x1f0000
        (ap_vec_reg_31_31_6_10 ∷ ap_vec_reg_30_30_16_20 ∷ [])
    ∷ rule xvrdpip 0xfc0007fc 0xf00003a4 0x1f0000
        (ap_vec_reg_31_31_6_10 ∷ ap_vec_reg_30_30_16_20 ∷ [])
    ∷ rule xvrdpiz 0xfc0007fc 0xf0000364 0x1f0000
        (ap_vec_reg_31_31_6_10 ∷ ap_vec_reg_30_30_16_20 ∷ [])
    ∷ rule xvredp 0xfc0007fc 0xf0000368 0x1f0000
        (ap_vec_reg_31_31_6_10 ∷ ap_vec_reg_30_30_16_20 ∷ [])
    ∷ rule xvresp 0xfc0007fc 0xf0000268 0x1f0000
        (ap_vec_reg_31_31_6_10 ∷ ap_vec_reg_30_30_16_20 ∷ [])
    ∷ rule xvrspi 0xfc0007fc 0xf0000224 0x1f0000
        (ap_vec_reg_31_31_6_10 ∷ ap_vec_reg_30_30_16_20 ∷ [])
    ∷ rule xvrspic 0xfc0007fc 0xf00002ac 0x1f0000
        (ap_vec_reg_31_31_6_10 ∷ ap_vec_reg_30_30_16_20 ∷ [])
    ∷ rule xvrspim 0xfc0007fc 0xf00002e4 0x1f0000
        (ap_vec_reg_31_31_6_10 ∷ ap_vec_reg_30_30_16_20 ∷ [])
    ∷ rule xvrspip 0xfc0007fc 0xf00002a4 0x1f0000
        (ap_vec_reg_31_31_6_10 ∷ ap_vec_reg_30_30_16_20 ∷ [])
    ∷ []

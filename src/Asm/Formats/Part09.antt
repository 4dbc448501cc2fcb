-- ===== src/Asm/Formats/Part09.antt =====
-- power64asm/tables.go: the rules of instFormats from DRSP_ to XSRSP.
use mathlib.Core.List.{List, [], ◌∷◌}
use power.Asm.InstFormat.{InstFormat, rule}
use power.Asm.Fields.{
  ap_fp_reg_6_10, ap_fp_reg_16_20, ap_imm_unsigned_11_12, ap_imm_unsigned_11_11, ap_fp_reg_11_15,
  ap_imm_unsigned_16_21, ap_vec_reg_31_31_6_10, ap_reg_11_15, ap_reg_16_20, ap_vec_reg_30_30_16_20,
  ap_vec_reg_29_29_11_15, ap_cond_reg_field_6_8,
}
use power.Asm.Op.Part07.{
  drsp_, drdpq, drdpq_, dcffix, dcffix_, dcffixq, dcffixq_, dctfix, dctfix_, ddedpd, ddedpd_,
  denbcd, denbcd_, dxex, dxex_, diex, diex_, dscli, dscli_, dscri, dscri_, lxsdx, lxsiwax, lxsiwzx,
  lxsspx, lxvd2x, lxvdsx, lxvw4x, stxsdx, stxsiwx, stxsspx, stxvd2x, stxvw4x, xsabsdp, xsadddp,
  xsaddsp, xscmpodp, xscmpudp, xscpsgndp, xscvdpsp, xscvdpspn, xscvdpsxds, xscvdpsxws, xscvdpuxds,
  xscvdpuxws, xscvspdp, xscvspdpn, xscvsxddp, xscvsxdsp, xscvuxddp, xscvuxdsp, xsdivdp, xsdivsp,
  xsmaddadp, xsmaddasp, xsmaxdp, xsmindp, xsmsubadp, xsmsubasp, xsmuldp, xsmulsp, xsnabsdp, xsnegdp,
  xsnmaddadp, xsnmaddasp, xsnmsubadp, xsnmsubasp, xsrdpi, xsrdpic, xsrdpim, xsrdpip, xsrdpiz,
  xsredp, xsresp, xsrsp,
}

unfoldable pub formats09 : List InstFormat
formats09 =
    rule drsp_ 0xfc0007ff 0xec000605 0x1f0000 (ap_fp_reg_6_10 ∷ ap_fp_reg_16_20 ∷ [])
    ∷ rule drdpq 0xfc0007ff 0xfc000604 0x1f0000 (ap_fp_reg_6_10 ∷ ap_fp_reg_16_20 ∷ [])
    ∷ rule drdpq_ 0xfc0007ff 0xfc000605 0x1f0000 (ap_fp_reg_6_10 ∷ ap_fp_reg_16_20 ∷ [])
    ∷ rule dcffix 0xfc0007ff 0xec000644 0x1f0000 (ap_fp_reg_6_10 ∷ ap_fp_reg_16_20 ∷ [])
    ∷ rule dcffix_ 0xfc0007ff 0xec000645 0x1f0000 (ap_fp_reg_6_10 ∷ ap_fp_reg_16_20 ∷ [])
    ∷ rule dcffixq 0xfc0007ff 0xfc000644 0x1f0000 (ap_fp_reg_6_10 ∷ ap_fp_reg_16_20 ∷ [])
    ∷ rule dcffixq_ 0xfc0007ff 0xfc000645 0x1f0000 (ap_fp_reg_6_10 ∷ ap_fp_reg_16_20 ∷ [])
    ∷ rule dctfix 0xfc0007ff 0xec000244 0x1f0000 (ap_fp_reg_6_10 ∷ ap_fp_reg_16_20 ∷ [])
    ∷ rule dctfix_ 0xfc0007ff 0xec000245 0x1f0000 (ap_fp_reg_6_10 ∷ ap_fp_reg_16_20 ∷ [])
    ∷ rule ddedpd 0xfc0007ff 0xec000284 0x70000
        (ap_imm_unsigned_11_12 ∷ ap_fp_reg_6_10 ∷ ap_fp_reg_16_20 ∷ [])
    ∷ rule ddedpd_ 0xfc0007ff 0xec000285 0x70000
        (ap_imm_unsigned_11_12 ∷ ap_fp_reg_6_10 ∷ ap_fp_reg_16_20 ∷ [])
    ∷ rule denbcd 0xfc0007ff 0xec000684 0xf0000
        (ap_imm_unsigned_11_11 ∷ ap_fp_reg_6_10 ∷ ap_fp_reg_16_20 ∷ [])
    ∷ rule denbcd_ 0xfc0007ff 0xec000685 0xf0000
        (ap_imm_unsigned_11_11 ∷ ap_fp_reg_6_10 ∷ ap_fp_reg_16_20 ∷ [])
    ∷ rule dxex 0xfc0007ff 0xec0002c4 0x1f0000 (ap_fp_reg_6_10 ∷ ap_fp_reg_16_20 ∷ [])
    ∷ rule dxex_ 0xfc0007ff 0xec0002c5 0x1f0000 (ap_fp_reg_6_10 ∷ ap_fp_reg_16_20 ∷ [])
    ∷ rule diex 0xfc0007ff 0xec0006c4 0x0 (ap_fp_reg_6_10 ∷ ap_fp_reg_11_15 ∷ ap_fp_reg_16_20 ∷ [])
    ∷ rule diex_ 0xfc0007ff 0xec0006c5 0x0 (ap_fp_reg_6_10 ∷ ap_fp_reg_11_15 ∷ ap_fp_reg_16_20 ∷ [])
    ∷ rule dscli 0xfc0003ff 0xec000084 0x0
        (ap_fp_reg_6_10 ∷ ap_fp_reg_11_15 ∷ ap_imm_unsigned_16_21 ∷ [])
    ∷ rule dscli_ 0xfc0003ff 0xec000085 0x0
        (ap_fp_reg_6_10 ∷ ap_fp_reg_11_15 ∷ ap_imm_unsigned_16_21 ∷ [])
    ∷ rule dscri 0xfc0003ff 0xec0000c4 0x0
        (ap_fp_reg_6_10 ∷ ap_fp_reg_11_15 ∷ ap_imm_unsigned_16_21 ∷ [])
    ∷ rule dscri_ 0xfc0003ff 0xec0000c5 0x0
        (ap_fp_reg_6_10 ∷ ap_fp_reg_11_15 ∷ ap_imm_unsigned_16_21 ∷ [])
    ∷ rule lxsdx 0xfc0007fe 0x7c000498 0x0
        (ap_vec_reg_31_31_6_10 ∷ ap_reg_11_15 ∷ ap_reg_16_20 ∷ [])
    ∷ rule lxsiwax 0xfc0007fe 0x7c000098 0x0
        (ap_vec_reg_31_31_6_10 ∷ ap_reg_11_15 ∷ ap_reg_16_20 ∷ [])
    ∷ rule lxsiwzx 0xfc0007fe 0x7c000018 0x0
        (ap_vec_reg_31_31_6_10 ∷ ap_reg_11_15 ∷ ap_reg_16_20 ∷ [])
    ∷ rule lxsspx 0xfc0007fe 0x7c000418 0x0
        (ap_vec_reg_31_31_6_10 ∷ ap_reg_11_15 ∷ ap_reg_16_20 ∷ [])
    ∷ rule lxvd2x 0xfc0007fe 0x7c000698 0x0
        (ap_vec_reg_31_31_6_10 ∷ ap_reg_11_15 ∷ ap_reg_16_20 ∷ [])
    ∷ rule lxvdsx 0xfc0007fe 0x7c000298 0x0
        (ap_vec_reg_31_31_6_10 ∷ ap_reg_11_15 ∷ ap_reg_16_20 ∷ [])
    ∷ rule lxvw4x 0xfc0007fe 0x7c000618 0x0
        (ap_vec_reg_31_31_6_10 ∷ ap_reg_11_15 ∷ ap_reg_16_20 ∷ [])
    ∷ rule stxsdx 0xfc0007fe 0x7c000598 0x0
        (ap_vec_reg_31_31_6_10 ∷ ap_reg_11_15 ∷ ap_reg_16_20 ∷ [])
    ∷ rule stxsiwx 0xfc0007fe 0x7c000118 0x0
        (ap_vec_reg_31_31_6_10 ∷ ap_reg_11_15 ∷ ap_reg_16_20 ∷ [])
    ∷ rule stxsspx 0xfc0007fe 0x7c000518 0x0
        (ap_vec_reg_31_31_6_10 ∷ ap_reg_11_15 ∷ ap_reg_16_20 ∷ [])
    ∷ rule stxvd2x 0xfc0007fe 0x7c000798 0x0
        (ap_vec_reg_31_31_6_10 ∷ ap_reg_11_15 ∷ ap_reg_16_20 ∷ [])
    ∷ rule stxvw4x 0xfc0007fe 0x7c000718 0x0
        (ap_vec_reg_31_31_6_10 ∷ ap_reg_11_15 ∷ ap_reg_16_20 ∷ [])
    ∷ rule xsabsdp 0xfc0007fc 0xf0000564 0x1f0000
        (ap_vec_reg_31_31_6_10 ∷ ap_vec_reg_30_30_16_20 ∷ [])
    ∷ rule xsadddp 0xfc0007f8 0xf0000100 0x0
        (ap_vec_reg_31_31_6_10 ∷ ap_vec_reg_29_29_11_15 ∷ ap_vec_reg_30_30_16_20 ∷ [])
    ∷ rule xsaddsp 0xfc0007f8 0xf0000000 0x0
        (ap_vec_reg_31_31_6_10 ∷ ap_vec_reg_29_29_11_15 ∷ ap_vec_reg_30_30_16_20 ∷ [])
    ∷ rule xscmpodp 0xfc0007f8 0xf0000158 0x600001
        (ap_cond_reg_field_6_8 ∷ ap_vec_reg_29_29_11_15 ∷ ap_vec_reg_30_30_16_20 ∷ [])
    ∷ rule xscmpudp 0xfc0007f8 0xf0000118 0x600001
        (ap_cond_reg_field_6_8 ∷ ap_vec_reg_29_29_11_15 ∷ ap_vec_reg_30_30_16_20 ∷ [])
    ∷ rule xscpsgndp 0xfc0007f8 0xf0000580 0x0
        (ap_vec_reg_31_31_6_10 ∷ ap_vec_reg_29_29_11_15 ∷ ap_vec_reg_30_30_16_20 ∷ [])
    ∷ rule xscvdpsp 0xfc0007fc 0xf0000424 0x1f0000
        (ap_vec_reg_31_31_6_10 ∷ ap_vec_reg_30_30_16_20 ∷ [])
    ∷ rule xscvdpspn 0xfc0007fc 0xf000042c 0x1f0000
        (ap_vec_reg_31_31_6_10 ∷ ap_vec_reg_30_30_16_20 ∷ [])
    ∷ rule xscvdpsxds 0xfc0007fc 0xf0000560 0x1f0000
        (ap_vec_reg_31_31_6_10 ∷ ap_vec_reg_30_30_16_20 ∷ [])
    ∷ rule xscvdpsxws 0xfc0007fc 0xf0000160 0x1f0000
        (ap_vec_reg_31_31_6_10 ∷ ap_vec_reg_30_30_16_20 ∷ [])
    ∷ rule xscvdpuxds 0xfc0007fc 0xf0000520 0x1f0000
        (ap_vec_reg_31_31_6_10 ∷ ap_vec_reg_30_30_16_20 ∷ [])
    ∷ rule xscvdpuxws 0xfc0007fc 0xf0000120 0x1f0000
        (ap_vec_reg_31_31_6_10 ∷ ap_vec_reg_30_30_16_20 ∷ [])
    ∷ rule xscvspdp 0xfc0007fc 0xf0000524 0x1f0000
        (ap_vec_reg_31_31_6_10 ∷ ap_vec_reg_30_30_16_20 ∷ [])
    ∷ rule xscvspdpn 0xfc0007fc 0xf000052c 0x1f0000
        (ap_vec_reg_31_31_6_10 ∷ ap_vec_reg_30_30_16_20 ∷ [])
    ∷ rule xscvsxddp 0xfc0007fc 0xf00005e0 0x1f0000
        (ap_vec_reg_31_31_6_10 ∷ ap_vec_reg_30_30_16_20 ∷ [])
    ∷ rule xscvsxdsp 0xfc0007fc 0xf00004e0 0x1f0000
        (ap_vec_reg_31_31_6_10 ∷ ap_vec_reg_30_30_16_20 ∷ [])
    ∷ rule xscvuxddp 0xfc0007fc 0xf00005a0 0x1f0000
        (ap_vec_reg_31_31_6_10 ∷ ap_vec_reg_30_30_16_20 ∷ [])
    ∷ rule xscvuxdsp 0xfc0007fc 0xf00004a0 0x1f0000
        (ap_vec_reg_31_31_6_10 ∷ ap_vec_reg_30_30_16_20 ∷ [])
    ∷ rule xsdivdp 0xfc0007f8 0xf00001c0 0x0
        (ap_vec_reg_31_31_6_10 ∷ ap_vec_reg_29_29_11_15 ∷ ap_vec_reg_30_30_16_20 ∷ [])
    ∷ rule xsdivsp 0xfc0007f8 0xf00000c0 0x0
        (ap_vec_reg_31_31_6_10 ∷ ap_vec_reg_29_29_11_15 ∷ ap_vec_reg_30_30_16_20 ∷ [])
    ∷ rule xsmaddadp 0xfc0007f8 0xf0000108 0x0
        (ap_vec_reg_31_31_6_10 ∷ ap_vec_reg_29_29_11_15 ∷ ap_vec_reg_30_30_16_20 ∷ [])
    ∷ rule xsmaddasp 0xfc0007f8 0xf0000008 0x0
        (ap_vec_reg_31_31_6_10 ∷ ap_vec_reg_29_29_11_15 ∷ ap_vec_reg_30_30_16_20 ∷ [])
    ∷ rule xsmaxdp 0xfc0007f8 0xf0000500 0x0
        (ap_vec_reg_31_31_6_10 ∷ ap_vec_reg_29_29_11_15 ∷ ap_vec_reg_30_30_16_20 ∷ [])
    ∷ rule xsmindp 0xfc0007f8 0xf0000540 0x0
        (ap_vec_reg_31_31_6_10 ∷ ap_vec_reg_29_29_11_15 ∷ ap_vec_reg_30_30_16_20 ∷ [])
    ∷ rule xsmsubadp 0xfc0007f8 0xf0000188 0x0
        (ap_vec_reg_31_31_6_10 ∷ ap_vec_reg_29_29_11_15 ∷ ap_vec_reg_30_30_16_20 ∷ [])
    ∷ rule xsmsubasp 0xfc0007f8 0xf0000088 0x0
        (ap_vec_reg_31_31_6_10 ∷ ap_vec_reg_29_29_11_15 ∷ ap_vec_reg_30_30_16_20 ∷ [])
    ∷ rule xsmuldp 0xfc0007f8 0xf0000180 0x0
        (ap_vec_reg_31_31_6_10 ∷ ap_vec_reg_29_29_11_15 ∷ ap_vec_reg_30_30_16_20 ∷ [])
    ∷ rule xsmulsp 0xfc0007f8 0xf0000080 0x0
        (ap_vec_reg_31_31_6_10 ∷ ap_vec_reg_29_29_11_15 ∷ ap_vec_reg_30_30_16_20 ∷ [])
    ∷ rule xsnabsdp 0xfc0007fc 0xf00005a4 0x1f0000
        (ap_vec_reg_31_31_6_10 ∷ ap_vec_reg_30_30_16_20 ∷ [])
    ∷ rule xsnegdp 0xfc0007fc 0xf00005e4 0x1f0000
        (ap_vec_reg_31_31_6_10 ∷ ap_vec_reg_30_30_16_20 ∷ [])
    ∷ rule xsnmaddadp 0xfc0007f8 0xf0000508 0x0
        (ap_vec_reg_31_31_6_10 ∷ ap_vec_reg_29_29_11_15 ∷ ap_vec_reg_30_30_16_20 ∷ [])
    ∷ rule xsnmaddasp 0xfc0007f8 0xf0000408 0x0
        (ap_vec_reg_31_31_6_10 ∷ ap_vec_reg_29_29_11_15 ∷ ap_vec_reg_30_30_16_20 ∷ [])
    ∷ rule xsnmsubadp 0xfc0007f8 0xf0000588 0x0
        (ap_vec_reg_31_31_6_10 ∷ ap_vec_reg_29_29_11_15 ∷ ap_vec_reg_30_30_16_20 ∷ [])
    ∷ rule xsnmsubasp 0xfc0007f8 0xf0000488 0x0
        (ap_vec_reg_31_31_6_10 ∷ ap_vec_reg_29_29_11_15 ∷ ap_vec_reg_30_30_16_20 ∷ [])
    ∷ rule xsrdpi 0xfc0007fc 0xf0000124 0x1f0000
        (ap_vec_reg_31_31_6_10 ∷ ap_vec_reg_30_30_16_20 ∷ [])
    ∷ rule xsrdpic 0xfc0007fc 0xf00001ac 0x1f0000
        (ap_vec_reg_31_31_6_10 ∷ ap_vec_reg_30_30_16_20 ∷ [])
    ∷ rule xsrdpim 0xfc0007fc 0xf00001e4 0x1f0000
        (ap_vec_reg_31_31_6_10 ∷ ap_vec_reg_30_30_16_20 ∷ [])
    ∷ rule xsrdpip 0xfc0007fc 0xf00001a4 0x1f0000
        (ap_vec_reg_31_31_6_10 ∷ ap_vec_reg_30_30_16_20 ∷ [])
    ∷ rule xsrdpiz 0xfc0007fc 0xf0000164 0x1f0000
        (ap_vec_reg_31_31_6_10 ∷ ap_vec_reg_30_30_16_20 ∷ [])
    ∷ rule xsredp 0xfc0007fc 0xf0000168 0x1f0000
        (ap_vec_reg_31_31_6_10 ∷ ap_vec_reg_30_30_16_20 ∷ [])
    ∷ rule xsresp 0xfc0007fc 0xf0000068 0x1f0000
        (ap_vec_reg_31_31_6_10 ∷ ap_vec_reg_30_30_16_20 ∷ [])
    ∷ rule xsrsp 0xfc0007fc 0xf0000464 0x1f0000
        (ap_vec_reg_31_31_6_10 ∷ ap_vec_reg_30_30_16_20 ∷ [])
    ∷ []

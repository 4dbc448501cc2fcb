-- ===== src/Asm/Formats/Part07.antt =====
-- power64asm/tables.go: the rules of instFormats from VAVGSH to VMINFP.
use mathlib.Core.List.{List, [], ◌∷◌}
use power.Asm.InstFormat.{InstFormat, rule}
use power.Asm.Fields.{ap_vec_reg_6_10, ap_vec_reg_11_15, ap_vec_reg_16_20, ap_vec_reg_21_25}
use power.Asm.Op.Part05.{
  vavgsh, vavgsw, vavgub, vavguw, vavguh, vmaxsb, vmaxsd, vmaxub, vmaxud, vmaxsh, vmaxsw, vmaxuh,
  vmaxuw, vminsb, vminsd, vminub, vminud, vminsh, vminsw, vminuh, vminuw, vcmpequb, vcmpequb_,
  vcmpequh, vcmpequh_, vcmpequw, vcmpequw_, vcmpequd, vcmpequd_, vcmpgtsb, vcmpgtsb_, vcmpgtsd,
  vcmpgtsd_, vcmpgtsh, vcmpgtsh_, vcmpgtsw, vcmpgtsw_, vcmpgtub, vcmpgtub_, vcmpgtud, vcmpgtud_,
  vcmpgtuh, vcmpgtuh_, vcmpgtuw, vcmpgtuw_,
}
use power.Asm.Op.Part06.{
  vand, vandc, veqv, vnand, vorc, vnor, vor, vxor, vrlb, vrlh, vrlw, vrld, vslb, vslh, vslw, vsld,
  vsrb, vsrh, vsrw, vsrd, vsrab, vsrah, vsraw, vsrad, vaddfp, vsubfp, vmaddfp, vnmsubfp, vmaxfp,
  vminfp,
}

unfoldable pub formats07 : List InstFormat
formats07 =
    rule vavgsh 0xfc0007ff 0x10000542 0x0
      (ap_vec_reg_6_10 ∷ ap_vec_reg_11_15 ∷ ap_vec_reg_16_20 ∷ [])
    ∷ rule vavgsw 0xfc0007ff 0x10000582 0x0
        (ap_vec_reg_6_10 ∷ ap_vec_reg_11_15 ∷ ap_vec_reg_16_20 ∷ [])
    ∷ rule vavgub 0xfc0007ff 0x10000402 0x0
        (ap_vec_reg_6_10 ∷ ap_vec_reg_11_15 ∷ ap_vec_reg_16_20 ∷ [])
    ∷ rule vavguw 0xfc0007ff 0x10000482 0x0
        (ap_vec_reg_6_10 ∷ ap_vec_reg_11_15 ∷ ap_vec_reg_16_20 ∷ [])
    ∷ rule vavguh 0xfc0007ff 0x10000442 0x0
        (ap_vec_reg_6_10 ∷ ap_vec_reg_11_15 ∷ ap_vec_reg_16_20 ∷ [])
    ∷ rule vmaxsb 0xfc0007ff 0x10000102 0x0
        (ap_vec_reg_6_10 ∷ ap_vec_reg_11_15 ∷ ap_vec_reg_16_20 ∷ [])
    ∷ rule vmaxsd 0xfc0007ff 0x100001c2 0x0
        (ap_vec_reg_6_10 ∷ ap_vec_reg_11_15 ∷ ap_vec_reg_16_20 ∷ [])
    ∷ rule vmaxub 0xfc0007ff 0x10000002 0x0
        (ap_vec_reg_6_10 ∷ ap_vec_reg_11_15 ∷ ap_vec_reg_16_20 ∷ [])
    ∷ rule vmaxud 0xfc0007ff 0x100000c2 0x0
        (ap_vec_reg_6_10 ∷ ap_vec_reg_11_15 ∷ ap_vec_reg_16_20 ∷ [])
    ∷ rule vmaxsh 0xfc0007ff 0x10000142 0x0
        (ap_vec_reg_6_10 ∷ ap_vec_reg_11_15 ∷ ap_vec_reg_16_20 ∷ [])
    ∷ rule vmaxsw 0xfc0007ff 0x10000182 0x0
        (ap_vec_reg_6_10 ∷ ap_vec_reg_11_15 ∷ ap_vec_reg_16_20 ∷ [])
    ∷ rule vmaxuh 0xfc0007ff 0x10000042 0x0
        (ap_vec_reg_6_10 ∷ ap_vec_reg_11_15 ∷ ap_vec_reg_16_20 ∷ [])
    ∷ rule vmaxuw 0xfc0007ff 0x10000082 0x0
        (ap_vec_reg_6_10 ∷ ap_vec_reg_11_15 ∷ ap_vec_reg_16_20 ∷ [])
    ∷ rule vminsb 0xfc0007ff 0x10000302 0x0
        (ap_vec_reg_6_10 ∷ ap_vec_reg_11_15 ∷ ap_vec_reg_16_20 ∷ [])
    ∷ rule vminsd 0xfc0007ff 0x100003c2 0x0
        (ap_vec_reg_6_10 ∷ ap_vec_reg_11_15 ∷ ap_vec_reg_16_20 ∷ [])
    ∷ rule vminub 0xfc0007ff 0x10000202 0x0
        (ap_vec_reg_6_10 ∷ ap_vec_reg_11_15 ∷ ap_vec_reg_16_20 ∷ [])
    ∷ rule vminud 0xfc0007ff 0x100002c2 0x0
        (ap_vec_reg_6_10 ∷ ap_vec_reg_11_15 ∷ ap_vec_reg_16_20 ∷ [])
    ∷ rule vminsh 0xfc0007ff 0x10000342 0x0
        (ap_vec_reg_6_10 ∷ ap_vec_reg_11_15 ∷ ap_vec_reg_16_20 ∷ [])
    ∷ rule vminsw 0xfc0007ff 0x10000382 0x0
        (ap_vec_reg_6_10 ∷ ap_vec_reg_11_15 ∷ ap_vec_reg_16_20 ∷ [])
    ∷ rule vminuh 0xfc0007ff 0x10000242 0x0
        (ap_vec_reg_6_10 ∷ ap_vec_reg_11_15 ∷ ap_vec_reg_16_20 ∷ [])
    ∷ rule vminuw 0xfc0007ff 0x10000282 0x0
        (ap_vec_reg_6_10 ∷ ap_vec_reg_11_15 ∷ ap_vec_reg_16_20 ∷ [])
    ∷ rule vcmpequb 0xfc0007ff 0x10000006 0x0
        (ap_vec_reg_6_10 ∷ ap_vec_reg_11_15 ∷ ap_vec_reg_16_20 ∷ [])
    ∷ rule vcmpequb_ 0xfc0007ff 0x10000406 0x0
        (ap_vec_reg_6_10 ∷ ap_vec_reg_11_15 ∷ ap_vec_reg_16_20 ∷ [])
    ∷ rule vcmpequh 0xfc0007ff 0x10000046 0x0
        (ap_vec_reg_6_10 ∷ ap_vec_reg_11_15 ∷ ap_vec_reg_16_20 ∷ [])
    ∷ rule vcmpequh_ 0xfc0007ff 0x10000446 0x0
        (ap_vec_reg_6_10 ∷ ap_vec_reg_11_15 ∷ ap_vec_reg_16_20 ∷ [])
    ∷ rule vcmpequw 0xfc0007ff 0x10000086 0x0
        (ap_vec_reg_6_10 ∷ ap_vec_reg_11_15 ∷ ap_vec_reg_16_20 ∷ [])
    ∷ rule vcmpequw_ 0xfc0007ff 0x10000486 0x0
        (ap_vec_reg_6_10 ∷ ap_vec_reg_11_15 ∷ ap_vec_reg_16_20 ∷ [])
    ∷ rule vcmpequd 0xfc0007ff 0x100000c7 0x0
        (ap_vec_reg_6_10 ∷ ap_vec_reg_11_15 ∷ ap_vec_reg_16_20 ∷ [])
    ∷ rule vcmpequd_ 0xfc0007ff 0x100004c7 0x0
        (ap_vec_reg_6_10 ∷ ap_vec_reg_11_15 ∷ ap_vec_reg_16_20 ∷ [])
    ∷ rule vcmpgtsb 0xfc0007ff 0x10000306 0x0
        (ap_vec_reg_6_10 ∷ ap_vec_reg_11_15 ∷ ap_vec_reg_16_20 ∷ [])
    ∷ rule vcmpgtsb_ 0xfc0007ff 0x10000706 0x0
        (ap_vec_reg_6_10 ∷ ap_vec_reg_11_15 ∷ ap_vec_reg_16_20 ∷ [])
    ∷ rule vcmpgtsd 0xfc0007ff 0x100003c7 0x0
        (ap_vec_reg_6_10 ∷ ap_vec_reg_11_15 ∷ ap_vec_reg_16_20 ∷ [])
    ∷ rule vcmpgtsd_ 0xfc0007ff 0x100007c7 0x0
        (ap_vec_reg_6_10 ∷ ap_vec_reg_11_15 ∷ ap_vec_reg_16_20 ∷ [])
    ∷ rule vcmpgtsh 0xfc0007ff 0x10000346 0x0
        (ap_vec_reg_6_10 ∷ ap_vec_reg_11_15 ∷ ap_vec_reg_16_20 ∷ [])
    ∷ rule vcmpgtsh_ 0xfc0007ff 0x10000746 0x0
        (ap_vec_reg_6_10 ∷ ap_vec_reg_11_15 ∷ ap_vec_reg_16_20 ∷ [])
    ∷ rule vcmpgtsw 0xfc0007ff 0x10000386 0x0
        (ap_vec_reg_6_10 ∷ ap_vec_reg_11_15 ∷ ap_vec_reg_16_20 ∷ [])
    ∷ rule vcmpgtsw_ 0xfc0007ff 0x10000786 0x0
        (ap_vec_reg_6_10 ∷ ap_vec_reg_11_15 ∷ ap_vec_reg_16_20 ∷ [])
    ∷ rule vcmpgtub 0xfc0007ff 0x10000206 0x0
        (ap_vec_reg_6_10 ∷ ap_vec_reg_11_15 ∷ ap_vec_reg_16_20 ∷ [])
    ∷ rule vcmpgtub_ 0xfc0007ff 0x10000606 0x0
        (ap_vec_reg_6_10 ∷ ap_vec_reg_11_15 ∷ ap_vec_reg_16_20 ∷ [])
    ∷ rule vcmpgtud 0xfc0007ff 0x100002c7 0x0
        (ap_vec_reg_6_10 ∷ ap_vec_reg_11_15 ∷ ap_vec_reg_16_20 ∷ [])
    ∷ rule vcmpgtud_ 0xfc0007ff 0x100006c7 0x0
        (ap_vec_reg_6_10 ∷ ap_vec_reg_11_15 ∷ ap_vec_reg_16_20 ∷ [])
    ∷ rule vcmpgtuh 0xfc0007ff 0x10000246 0x0
        (ap_vec_reg_6_10 ∷ ap_vec_reg_11_15 ∷ ap_vec_reg_16_20 ∷ [])
    ∷ rule vcmpgtuh_ 0xfc0007ff 0x10000646 0x0
        (ap_vec_reg_6_10 ∷ ap_vec_reg_11_15 ∷ ap_vec_reg_16_20 ∷ [])
    ∷ rule vcmpgtuw 0xfc0007ff 0x10000286 0x0
        (ap_vec_reg_6_10 ∷ ap_vec_reg_11_15 ∷ ap_vec_reg_16_20 ∷ [])
    ∷ rule vcmpgtuw_ 0xfc0007ff 0x10000686 0x0
        (ap_vec_reg_6_10 ∷ ap_vec_reg_11_15 ∷ ap_vec_reg_16_20 ∷ [])
    ∷ rule vand 0xfc0007ff 0x10000404 0x0
        (ap_vec_reg_6_10 ∷ ap_vec_reg_11_15 ∷ ap_vec_reg_16_20 ∷ [])
    ∷ rule vandc 0xfc0007ff 0x10000444 0x0
        (ap_vec_reg_6_10 ∷ ap_vec_reg_11_15 ∷ ap_vec_reg_16_20 ∷ [])
    ∷ rule veqv 0xfc0007ff 0x10000684 0x0
        (ap_vec_reg_6_10 ∷ ap_vec_reg_11_15 ∷ ap_vec_reg_16_20 ∷ [])
    ∷ rule vnand 0xfc0007ff 0x10000584 0x0
        (ap_vec_reg_6_10 ∷ ap_vec_reg_11_15 ∷ ap_vec_reg_16_20 ∷ [])
    ∷ rule vorc 0xfc0007ff 0x10000544 0x0
        (ap_vec_reg_6_10 ∷ ap_vec_reg_11_15 ∷ ap_vec_reg_16_20 ∷ [])
    ∷ rule vnor 0xfc0007ff 0x10000504 0x0
        (ap_vec_reg_6_10 ∷ ap_vec_reg_11_15 ∷ ap_vec_reg_16_20 ∷ [])
    ∷ rule vor 0xfc0007ff 0x10000484 0x0
        (ap_vec_reg_6_10 ∷ ap_vec_reg_11_15 ∷ ap_vec_reg_16_20 ∷ [])
    ∷ rule vxor 0xfc0007ff 0x100004c4 0x0
        (ap_vec_reg_6_10 ∷ ap_vec_reg_11_15 ∷ ap_vec_reg_16_20 ∷ [])
    ∷ rule vrlb 0xfc0007ff 0x10000004 0x0
        (ap_vec_reg_6_10 ∷ ap_vec_reg_11_15 ∷ ap_vec_reg_16_20 ∷ [])
    ∷ rule vrlh 0xfc0007ff 0x10000044 0x0
        (ap_vec_reg_6_10 ∷ ap_vec_reg_11_15 ∷ ap_vec_reg_16_20 ∷ [])
    ∷ rule vrlw 0xfc0007ff 0x10000084 0x0
        (ap_vec_reg_6_10 ∷ ap_vec_reg_11_15 ∷ ap_vec_reg_16_20 ∷ [])
    ∷ rule vrld 0xfc0007ff 0x100000c4 0x0
        (ap_vec_reg_6_10 ∷ ap_vec_reg_11_15 ∷ ap_vec_reg_16_20 ∷ [])
    ∷ rule vslb 0xfc0007ff 0x10000104 0x0
        (ap_vec_reg_6_10 ∷ ap_vec_reg_11_15 ∷ ap_vec_reg_16_20 ∷ [])
    ∷ rule vslh 0xfc0007ff 0x10000144 0x0
        (ap_vec_reg_6_10 ∷ ap_vec_reg_11_15 ∷ ap_vec_reg_16_20 ∷ [])
    ∷ rule vslw 0xfc0007ff 0x10000184 0x0
        (ap_vec_reg_6_10 ∷ ap_vec_reg_11_15 ∷ ap_vec_reg_16_20 ∷ [])
    ∷ rule vsld 0xfc0007ff 0x100005c4 0x0
        (ap_vec_reg_6_10 ∷ ap_vec_reg_11_15 ∷ ap_vec_reg_16_20 ∷ [])
    ∷ rule vsrb 0xfc0007ff 0x10000204 0x0
        (ap_vec_reg_6_10 ∷ ap_vec_reg_11_15 ∷ ap_vec_reg_16_20 ∷ [])
    ∷ rule vsrh 0xfc0007ff 0x10000244 0x0
        (ap_vec_reg_6_10 ∷ ap_vec_reg_11_15 ∷ ap_vec_reg_16_20 ∷ [])
    ∷ rule vsrw 0xfc0007ff 0x10000284 0x0
        (ap_vec_reg_6_10 ∷ ap_vec_reg_11_15 ∷ ap_vec_reg_16_20 ∷ [])
    ∷ rule vsrd 0xfc0007ff 0x100006c4 0x0
        (ap_vec_reg_6_10 ∷ ap_vec_reg_11_15 ∷ ap_vec_reg_16_20 ∷ [])
    ∷ rule vsrab 0xfc0007ff 0x10000304 0x0
        (ap_vec_reg_6_10 ∷ ap_vec_reg_11_15 ∷ ap_vec_reg_16_20 ∷ [])
    ∷ rule vsrah 0xfc0007ff 0x10000344 0x0
        (ap_vec_reg_6_10 ∷ ap_vec_reg_11_15 ∷ ap_vec_reg_16_20 ∷ [])
    ∷ rule vsraw 0xfc0007ff 0x10000384 0x0
        (ap_vec_reg_6_10 ∷ ap_vec_reg_11_15 ∷ ap_vec_reg_16_20 ∷ [])
    ∷ rule vsrad 0xfc0007ff 0x100003c4 0x0
        (ap_vec_reg_6_10 ∷ ap_vec_reg_11_15 ∷ ap_vec_reg_16_20 ∷ [])
    ∷ rule vaddfp 0xfc0007ff 0x1000000a 0x0
        (ap_vec_reg_6_10 ∷ ap_vec_reg_11_15 ∷ ap_vec_reg_16_20 ∷ [])
    ∷ rule vsubfp 0xfc0007ff 0x1000004a 0x0
        (ap_vec_reg_6_10 ∷ ap_vec_reg_11_15 ∷ ap_vec_reg_16_20 ∷ [])
    ∷ rule vmaddfp 0xfc00003f 0x1000002e 0x0
        (ap_vec_reg_6_10 ∷ ap_vec_reg_11_15 ∷ ap_vec_reg_21_25 ∷ ap_vec_reg_16_20 ∷ [])
    ∷ rule vnmsubfp 0xfc00003f 0x1000002f 0x0
        (ap_vec_reg_6_10 ∷ ap_vec_reg_11_15 ∷ ap_vec_reg_21_25 ∷ ap_vec_reg_16_20 ∷ [])
    ∷ rule vmaxfp 0xfc0007ff 0x1000040a 0x0
        (ap_vec_reg_6_10 ∷ ap_vec_reg_11_15 ∷ ap_vec_reg_16_20 ∷ [])
    ∷ rule vminfp 0xfc0007ff 0x1000044a 0x0
        (ap_vec_reg_6_10 ∷ ap_vec_reg_11_15 ∷ ap_vec_reg_16_20 ∷ [])
    ∷ []

-- ===== src/Asm/Formats/Part14.antt =====
-- power64asm/tables.go: the rules of instFormats from EFSMUL to MACHHWU.
use mathlib.Core.List.{List, [], ◌∷◌}
use power.Asm.InstFormat.{InstFormat, rule}
use power.Asm.Fields.{ap_reg_6_10, ap_reg_11_15, ap_reg_16_20, ap_cond_reg_field_6_8}
use power.Asm.Op.Part11.{
  efsmul, efssub, efsdiv, efscmpgt, efscmplt, efscmpeq, efststgt, efststlt, efststeq, efscfsi,
  efscfsf, efsctsi, efscfui, efscfuf, efsctui, efsctsiz, efsctsf, efsctuiz, efsctuf, efdabs, efdneg,
  efdnabs, efdadd, efdmul, efdsub, efddiv, efdcmpgt, efdcmpeq, efdcmplt, efdtstgt, efdtstlt,
  efdcfsi, efdtsteq, efdcfui, efdcfsid, efdcfsf, efdcfuf, efdcfuid, efdctsi, efdctui, efdctsidz,
  efdctuidz, efdctsiz, efdctsf, efdctuf, efdctuiz, efdcfs, efscfd, dlmzb, dlmzb_, macchw, macchw_,
  macchwo, macchwo_, macchws, macchws_, macchwso, macchwso_, macchwu, macchwu_, macchwuo, macchwuo_,
  macchwsu, macchwsu_, macchwsuo, macchwsuo_, machhw, machhw_, machhwo, machhwo_, machhws, machhws_,
  machhwso, machhwso_, machhwu,
}

unfoldable pub formats14 : List InstFormat
formats14 =
    rule efsmul 0xfc0007ff 0x100002c8 0x0 (ap_reg_6_10 ∷ ap_reg_11_15 ∷ ap_reg_16_20 ∷ [])
    ∷ rule efssub 0xfc0007ff 0x100002c1 0x0 (ap_reg_6_10 ∷ ap_reg_11_15 ∷ ap_reg_16_20 ∷ [])
    ∷ rule efsdiv 0xfc0007ff 0x100002c9 0x0 (ap_reg_6_10 ∷ ap_reg_11_15 ∷ ap_reg_16_20 ∷ [])
    ∷ rule efscmpgt 0xfc0007ff 0x100002cc 0x600000
        (ap_cond_reg_field_6_8 ∷ ap_reg_11_15 ∷ ap_reg_16_20 ∷ [])
    ∷ rule efscmplt 0xfc0007ff 0x100002cd 0x600000
        (ap_cond_reg_field_6_8 ∷ ap_reg_11_15 ∷ ap_reg_16_20 ∷ [])
    ∷ rule efscmpeq 0xfc0007ff 0x100002ce 0x600000
        (ap_cond_reg_field_6_8 ∷ ap_reg_11_15 ∷ ap_reg_16_20 ∷ [])
    ∷ rule efststgt 0xfc0007ff 0x100002dc 0x600000
        (ap_cond_reg_field_6_8 ∷ ap_reg_11_15 ∷ ap_reg_16_20 ∷ [])
    ∷ rule efststlt 0xfc0007ff 0x100002dd 0x600000
        (ap_cond_reg_field_6_8 ∷ ap_reg_11_15 ∷ ap_reg_16_20 ∷ [])
    ∷ rule efststeq 0xfc0007ff 0x100002de 0x600000
        (ap_cond_reg_field_6_8 ∷ ap_reg_11_15 ∷ ap_reg_16_20 ∷ [])
    ∷ rule efscfsi 0xfc0007ff 0x100002d1 0x1f0000 (ap_reg_6_10 ∷ ap_reg_16_20 ∷ [])
    ∷ rule efscfsf 0xfc0007ff 0x100002d3 0x1f0000 (ap_reg_6_10 ∷ ap_reg_16_20 ∷ [])
    ∷ rule efsctsi 0xfc0007ff 0x100002d5 0x1f0000 (ap_reg_6_10 ∷ ap_reg_16_20 ∷ [])
    ∷ rule efscfui 0xfc0007ff 0x100002d0 0x1f0000 (ap_reg_6_10 ∷ ap_reg_16_20 ∷ [])
    ∷ rule efscfuf 0xfc0007ff 0x100002d2 0x1f0000 (ap_reg_6_10 ∷ ap_reg_16_20 ∷ [])
    ∷ rule efsctui 0xfc0007ff 0x100002d4 0x1f0000 (ap_reg_6_10 ∷ ap_reg_16_20 ∷ [])
    ∷ rule efsctsiz 0xfc0007ff 0x100002da 0x1f0000 (ap_reg_6_10 ∷ ap_reg_16_20 ∷ [])
    ∷ rule efsctsf 0xfc0007ff 0x100002d7 0x1f0000 (ap_reg_6_10 ∷ ap_reg_16_20 ∷ [])
    ∷ rule efsctuiz 0xfc0007ff 0x100002d8 0x1f0000 (ap_reg_6_10 ∷ ap_reg_16_20 ∷ [])
    ∷ rule efsctuf 0xfc0007ff 0x100002d6 0x1f0000 (ap_reg_6_10 ∷ ap_reg_16_20 ∷ [])
    ∷ rule efdabs 0xfc0007ff 0x100002e4 0xf800 (ap_reg_6_10 ∷ ap_reg_11_15 ∷ [])
    ∷ rule efdneg 0xfc0007ff 0x100002e6 0xf800 (ap_reg_6_10 ∷ ap_reg_11_15 ∷ [])
    ∷ rule efdnabs 0xfc0007ff 0x100002e5 0xf800 (ap_reg_6_10 ∷ ap_reg_11_15 ∷ [])
    ∷ rule efdadd 0xfc0007ff 0x100002e0 0x0 (ap_reg_6_10 ∷ ap_reg_11_15 ∷ ap_reg_16_20 ∷ [])
    ∷ rule efdmul 0xfc0007ff 0x100002e8 0x0 (ap_reg_6_10 ∷ ap_reg_11_15 ∷ ap_reg_16_20 ∷ [])
    ∷ rule efdsub 0xfc0007ff 0x100002e1 0x0 (ap_reg_6_10 ∷ ap_reg_11_15 ∷ ap_reg_16_20 ∷ [])
    ∷ rule efddiv 0xfc0007ff 0x100002e9 0x0 (ap_reg_6_10 ∷ ap_reg_11_15 ∷ ap_reg_16_20 ∷ [])
    ∷ rule efdcmpgt 0xfc0007ff 0x100002ec 0x600000
        (ap_cond_reg_field_6_8 ∷ ap_reg_11_15 ∷ ap_reg_16_20 ∷ [])
    ∷ rule efdcmpeq 0xfc0007ff 0x100002ee 0x600000
        (ap_cond_reg_field_6_8 ∷ ap_reg_11_15 ∷ ap_reg_16_20 ∷ [])
    ∷ rule efdcmplt 0xfc0007ff 0x100002ed 0x600000
        (ap_cond_reg_field_6_8 ∷ ap_reg_11_15 ∷ ap_reg_16_20 ∷ [])
    ∷ rule efdtstgt 0xfc0007ff 0x100002fc 0x600000
        (ap_cond_reg_field_6_8 ∷ ap_reg_11_15 ∷ ap_reg_16_20 ∷ [])
    ∷ rule efdtstlt 0xfc0007ff 0x100002fd 0x600000
        (ap_cond_reg_field_6_8 ∷ ap_reg_11_15 ∷ ap_reg_16_20 ∷ [])
    ∷ rule efdcfsi 0xfc0007ff 0x100002f1 0x1f0000 (ap_reg_6_10 ∷ ap_reg_16_20 ∷ [])
    ∷ rule efdtsteq 0xfc0007ff 0x100002fe 0x600000
        (ap_cond_reg_field_6_8 ∷ ap_reg_11_15 ∷ ap_reg_16_20 ∷ [])
    ∷ rule efdcfui 0xfc0007ff 0x100002f0 0x1f0000 (ap_reg_6_10 ∷ ap_reg_16_20 ∷ [])
    ∷ rule efdcfsid 0xfc0007ff 0x100002e3 0x1f0000 (ap_reg_6_10 ∷ ap_reg_16_20 ∷ [])
    ∷ rule efdcfsf 0xfc0007ff 0x100002f3 0x1f0000 (ap_reg_6_10 ∷ ap_reg_16_20 ∷ [])
    ∷ rule efdcfuf 0xfc0007ff 0x100002f2 0x1f0000 (ap_reg_6_10 ∷ ap_reg_16_20 ∷ [])
    ∷ rule efdcfuid 0xfc0007ff 0x100002e2 0x1f0000 (ap_reg_6_10 ∷ ap_reg_16_20 ∷ [])
    ∷ rule efdctsi 0xfc0007ff 0x100002f5 0x1f0000 (ap_reg_6_10 ∷ ap_reg_16_20 ∷ [])
    ∷ rule efdctui 0xfc0007ff 0x100002f4 0x1f0000 (ap_reg_6_10 ∷ ap_reg_16_20 ∷ [])
    ∷ rule efdctsidz 0xfc0007ff 0x100002eb 0x1f0000 (ap_reg_6_10 ∷ ap_reg_16_20 ∷ [])
    ∷ rule efdctuidz 0xfc0007ff 0x100002ea 0x1f0000 (ap_reg_6_10 ∷ ap_reg_16_20 ∷ [])
    ∷ rule efdctsiz 0xfc0007ff 0x100002fa 0x1f0000 (ap_reg_6_10 ∷ ap_reg_16_20 ∷ [])
    ∷ rule efdctsf 0xfc0007ff 0x100002f7 0x1f0000 (ap_reg_6_10 ∷ ap_reg_16_20 ∷ [])
    ∷ rule efdctuf 0xfc0007ff 0x100002f6 0x1f0000 (ap_reg_6_10 ∷ ap_reg_16_20 ∷ [])
    ∷ rule efdctuiz 0xfc0007ff 0x100002f8 0x1f0000 (ap_reg_6_10 ∷ ap_reg_16_20 ∷ [])
    ∷ rule efdcfs 0xfc0007ff 0x100002ef 0x1f0000 (ap_reg_6_10 ∷ ap_reg_16_20 ∷ [])
    ∷ rule efscfd 0xfc0007ff 0x100002cf 0x1f0000 (ap_reg_6_10 ∷ ap_reg_16_20 ∷ [])
    ∷ rule dlmzb 0xfc0007ff 0x7c00009c 0x0 (ap_reg_11_15 ∷ ap_reg_6_10 ∷ ap_reg_16_20 ∷ [])
    ∷ rule dlmzb_ 0xfc0007ff 0x7c00009d 0x0 (ap_reg_11_15 ∷ ap_reg_6_10 ∷ ap_reg_16_20 ∷ [])
    ∷ rule macchw 0xfc0007ff 0x10000158 0x0 (ap_reg_6_10 ∷ ap_reg_11_15 ∷ ap_reg_16_20 ∷ [])
    ∷ rule macchw_ 0xfc0007ff 0x10000159 0x0 (ap_reg_6_10 ∷ ap_reg_11_15 ∷ ap_reg_16_20 ∷ [])
    ∷ rule macchwo 0xfc0007ff 0x10000558 0x0 (ap_reg_6_10 ∷ ap_reg_11_15 ∷ ap_reg_16_20 ∷ [])
    ∷ rule macchwo_ 0xfc0007ff 0x10000559 0x0 (ap_reg_6_10 ∷ ap_reg_11_15 ∷ ap_reg_16_20 ∷ [])
    ∷ rule macchws 0xfc0007ff 0x100001d8 0x0 (ap_reg_6_10 ∷ ap_reg_11_15 ∷ ap_reg_16_20 ∷ [])
    ∷ rule macchws_ 0xfc0007ff 0x100001d9 0x0 (ap_reg_6_10 ∷ ap_reg_11_15 ∷ ap_reg_16_20 ∷ [])
    ∷ rule macchwso 0xfc0007ff 0x100005d8 0x0 (ap_reg_6_10 ∷ ap_reg_11_15 ∷ ap_reg_16_20 ∷ [])
    ∷ rule macchwso_ 0xfc0007ff 0x100005d9 0x0 (ap_reg_6_10 ∷ ap_reg_11_15 ∷ ap_reg_16_20 ∷ [])
    ∷ rule macchwu 0xfc0007ff 0x10000118 0x0 (ap_reg_6_10 ∷ ap_reg_11_15 ∷ ap_reg_16_20 ∷ [])
    ∷ rule macchwu_ 0xfc0007ff 0x10000119 0x0 (ap_reg_6_10 ∷ ap_reg_11_15 ∷ ap_reg_16_20 ∷ [])
    ∷ rule macchwuo 0xfc0007ff 0x10000518 0x0 (ap_reg_6_10 ∷ ap_reg_11_15 ∷ ap_reg_16_20 ∷ [])
    ∷ rule macchwuo_ 0xfc0007ff 0x10000519 0x0 (ap_reg_6_10 ∷ ap_reg_11_15 ∷ ap_reg_16_20 ∷ [])
    ∷ rule macchwsu 0xfc0007ff 0x10000198 0x0 (ap_reg_6_10 ∷ ap_reg_11_15 ∷ ap_reg_16_20 ∷ [])
    ∷ rule macchwsu_ 0xfc0007ff 0x10000199 0x0 (ap_reg_6_10 ∷ ap_reg_11_15 ∷ ap_reg_16_20 ∷ [])
    ∷ rule macchwsuo 0xfc0007ff 0x10000598 0x0 (ap_reg_6_10 ∷ ap_reg_11_15 ∷ ap_reg_16_20 ∷ [])
    ∷ rule macchwsuo_ 0xfc0007ff 0x10000599 0x0 (ap_reg_6_10 ∷ ap_reg_11_15 ∷ ap_reg_16_20 ∷ [])
    ∷ rule machhw 0xfc0007ff 0x10000058 0x0 (ap_reg_6_10 ∷ ap_reg_11_15 ∷ ap_reg_16_20 ∷ [])
    ∷ rule machhw_ 0xfc0007ff 0x10000059 0x0 (ap_reg_6_10 ∷ ap_reg_11_15 ∷ ap_reg_16_20 ∷ [])
    ∷ rule machhwo 0xfc0007ff 0x10000458 0x0 (ap_reg_6_10 ∷ ap_reg_11_15 ∷ ap_reg_16_20 ∷ [])
    ∷ rule machhwo_ 0xfc0007ff 0x10000459 0x0 (ap_reg_6_10 ∷ ap_reg_11_15 ∷ ap_reg_16_20 ∷ [])
    ∷ rule machhws 0xfc0007ff 0x100000d8 0x0 (ap_reg_6_10 ∷ ap_reg_11_15 ∷ ap_reg_16_20 ∷ [])
    ∷ rule machhws_ 0xfc0007ff 0x100000d9 0x0 (ap_reg_6_10 ∷ ap_reg_11_15 ∷ ap_reg_16_20 ∷ [])
    ∷ rule machhwso 0xfc0007ff 0x100004d8 0x0 (ap_reg_6_10 ∷ ap_reg_11_15 ∷ ap_reg_16_20 ∷ [])
    ∷ rule machhwso_ 0xfc0007ff 0x100004d9 0x0 (ap_reg_6_10 ∷ ap_reg_11_15 ∷ ap_reg_16_20 ∷ [])
    ∷ rule machhwu 0xfc0007ff 0x10000018 0x0 (ap_reg_6_10 ∷ ap_reg_11_15 ∷ ap_reg_16_20 ∷ [])
    ∷ []

-- ===== src/Asm/Formats/Part15.antt =====
-- power64asm/tables.go: the rules of instFormats from MACHHWU_ to LWARX.
use mathlib.Core.List.{List, [], ◌∷◌}
use power.Asm.InstFormat.{InstFormat, rule}
use power.Asm.Fields.{
  ap_reg_6_10, ap_reg_11_15, ap_reg_16_20, ap_imm_unsigned_7_10, ap_imm_unsigned_6_10,
  ap_imm_unsigned_9_10, ap_imm_unsigned_31_31,
}
use power.Asm.Op.Part11.{
  machhwu_, machhwuo, machhwuo_, machhwsu, machhwsu_, machhwsuo, machhwsuo_, maclhw, maclhw_,
  maclhwo, maclhwo_, maclhws, maclhws_, maclhwso, maclhwso_,
}
use power.Asm.Op.Part12.{
  maclhwu, maclhwu_, maclhwuo, maclhwuo_, mulchw, mulchw_, maclhwsu, maclhwsu_, maclhwsuo,
  maclhwsuo_, mulchwu, mulchwu_, mulhhw, mulhhw_, mullhw, mullhw_, mulhhwu, mulhhwu_, mullhwu,
  mullhwu_, nmacchw, nmacchw_, nmacchwo, nmacchwo_, nmacchws, nmacchws_, nmacchwso, nmacchwso_,
  nmachhw, nmachhw_, nmachhwo, nmachhwo_, nmachhws, nmachhws_, nmachhwso, nmachhwso_, nmaclhw,
  nmaclhw_, nmaclhwo, nmaclhwo_, nmaclhws, nmaclhws_, nmaclhwso, nmaclhwso_, icbi, icbt, dcba, dcbt,
  dcbtst, dcbz, dcbst, dcbf, isync, lbarx, lharx, lwarx,
}

unfoldable pub formats15 : List InstFormat
formats15 =
    rule machhwu_ 0xfc0007ff 0x10000019 0x0 (ap_reg_6_10 ∷ ap_reg_11_15 ∷ ap_reg_16_20 ∷ [])
    ∷ rule machhwuo 0xfc0007ff 0x10000418 0x0 (ap_reg_6_10 ∷ ap_reg_11_15 ∷ ap_reg_16_20 ∷ [])
    ∷ rule machhwuo_ 0xfc0007ff 0x10000419 0x0 (ap_reg_6_10 ∷ ap_reg_11_15 ∷ ap_reg_16_20 ∷ [])
    ∷ rule machhwsu 0xfc0007ff 0x10000098 0x0 (ap_reg_6_10 ∷ ap_reg_11_15 ∷ ap_reg_16_20 ∷ [])
    ∷ rule machhwsu_ 0xfc0007ff 0x10000099 0x0 (ap_reg_6_10 ∷ ap_reg_11_15 ∷ ap_reg_16_20 ∷ [])
    ∷ rule machhwsuo 0xfc0007ff 0x10000498 0x0 (ap_reg_6_10 ∷ ap_reg_11_15 ∷ ap_reg_16_20 ∷ [])
    ∷ rule machhwsuo_ 0xfc0007ff 0x10000499 0x0 (ap_reg_6_10 ∷ ap_reg_11_15 ∷ ap_reg_16_20 ∷ [])
    ∷ rule maclhw 0xfc0007ff 0x10000358 0x0 (ap_reg_6_10 ∷ ap_reg_11_15 ∷ ap_reg_16_20 ∷ [])
    ∷ rule maclhw_ 0xfc0007ff 0x10000359 0x0 (ap_reg_6_10 ∷ ap_reg_11_15 ∷ ap_reg_16_20 ∷ [])
    ∷ rule maclhwo 0xfc0007ff 0x10000758 0x0 (ap_reg_6_10 ∷ ap_reg_11_15 ∷ ap_reg_16_20 ∷ [])
    ∷ rule maclhwo_ 0xfc0007ff 0x10000759 0x0 (ap_reg_6_10 ∷ ap_reg_11_15 ∷ ap_reg_16_20 ∷ [])
    ∷ rule maclhws 0xfc0007ff 0x100003d8 0x0 (ap_reg_6_10 ∷ ap_reg_11_15 ∷ ap_reg_16_20 ∷ [])
    ∷ rule maclhws_ 0xfc0007ff 0x100003d9 0x0 (ap_reg_6_10 ∷ ap_reg_11_15 ∷ ap_reg_16_20 ∷ [])
    ∷ rule maclhwso 0xfc0007ff 0x100007d8 0x0 (ap_reg_6_10 ∷ ap_reg_11_15 ∷ ap_reg_16_20 ∷ [])
    ∷ rule maclhwso_ 0xfc0007ff 0x100007d9 0x0 (ap_reg_6_10 ∷ ap_reg_11_15 ∷ ap_reg_16_20 ∷ [])
    ∷ rule maclhwu 0xfc0007ff 0x10000318 0x0 (ap_reg_6_10 ∷ ap_reg_11_15 ∷ ap_reg_16_20 ∷ [])
    ∷ rule maclhwu_ 0xfc0007ff 0x10000319 0x0 (ap_reg_6_10 ∷ ap_reg_11_15 ∷ ap_reg_16_20 ∷ [])
    ∷ rule maclhwuo 0xfc0007ff 0x10000718 0x0 (ap_reg_6_10 ∷ ap_reg_11_15 ∷ ap_reg_16_20 ∷ [])
    ∷ rule maclhwuo_ 0xfc0007ff 0x10000719 0x0 (ap_reg_6_10 ∷ ap_reg_11_15 ∷ ap_reg_16_20 ∷ [])
    ∷ rule mulchw 0xfc0007ff 0x10000150 0x0 (ap_reg_6_10 ∷ ap_reg_11_15 ∷ ap_reg_16_20 ∷ [])
    ∷ rule mulchw_ 0xfc0007ff 0x10000151 0x0 (ap_reg_6_10 ∷ ap_reg_11_15 ∷ ap_reg_16_20 ∷ [])
    ∷ rule maclhwsu 0xfc0007ff 0x10000398 0x0 (ap_reg_6_10 ∷ ap_reg_11_15 ∷ ap_reg_16_20 ∷ [])
    ∷ rule maclhwsu_ 0xfc0007ff 0x10000399 0x0 (ap_reg_6_10 ∷ ap_reg_11_15 ∷ ap_reg_16_20 ∷ [])
    ∷ rule maclhwsuo 0xfc0007ff 0x10000798 0x0 (ap_reg_6_10 ∷ ap_reg_11_15 ∷ ap_reg_16_20 ∷ [])
    ∷ rule maclhwsuo_ 0xfc0007ff 0x10000799 0x0 (ap_reg_6_10 ∷ ap_reg_11_15 ∷ ap_reg_16_20 ∷ [])
    ∷ rule mulchwu 0xfc0007ff 0x10000110 0x0 (ap_reg_6_10 ∷ ap_reg_11_15 ∷ ap_reg_16_20 ∷ [])
    ∷ rule mulchwu_ 0xfc0007ff 0x10000111 0x0 (ap_reg_6_10 ∷ ap_reg_11_15 ∷ ap_reg_16_20 ∷ [])
    ∷ rule mulhhw 0xfc0007ff 0x10000050 0x0 (ap_reg_6_10 ∷ ap_reg_11_15 ∷ ap_reg_16_20 ∷ [])
    ∷ rule mulhhw_ 0xfc0007ff 0x10000051 0x0 (ap_reg_6_10 ∷ ap_reg_11_15 ∷ ap_reg_16_20 ∷ [])
    ∷ rule mullhw 0xfc0007ff 0x10000350 0x0 (ap_reg_6_10 ∷ ap_reg_11_15 ∷ ap_reg_16_20 ∷ [])
    ∷ rule mullhw_ 0xfc0007ff 0x10000351 0x0 (ap_reg_6_10 ∷ ap_reg_11_15 ∷ ap_reg_16_20 ∷ [])
    ∷ rule mulhhwu 0xfc0007ff 0x10000010 0x0 (ap_reg_6_10 ∷ ap_reg_11_15 ∷ ap_reg_16_20 ∷ [])
    ∷ rule mulhhwu_ 0xfc0007ff 0x10000011 0x0 (ap_reg_6_10 ∷ ap_reg_11_15 ∷ ap_reg_16_20 ∷ [])
    ∷ rule mullhwu 0xfc0007ff 0x10000310 0x0 (ap_reg_6_10 ∷ ap_reg_11_15 ∷ ap_reg_16_20 ∷ [])
    ∷ rule mullhwu_ 0xfc0007ff 0x10000311 0x0 (ap_reg_6_10 ∷ ap_reg_11_15 ∷ ap_reg_16_20 ∷ [])
    ∷ rule nmacchw 0xfc0007ff 0x1000015c 0x0 (ap_reg_6_10 ∷ ap_reg_11_15 ∷ ap_reg_16_20 ∷ [])
    ∷ rule nmacchw_ 0xfc0007ff 0x1000015d 0x0 (ap_reg_6_10 ∷ ap_reg_11_15 ∷ ap_reg_16_20 ∷ [])
    ∷ rule nmacchwo 0xfc0007ff 0x1000055c 0x0 (ap_reg_6_10 ∷ ap_reg_11_15 ∷ ap_reg_16_20 ∷ [])
    ∷ rule nmacchwo_ 0xfc0007ff 0x1000055d 0x0 (ap_reg_6_10 ∷ ap_reg_11_15 ∷ ap_reg_16_20 ∷ [])
    ∷ rule nmacchws 0xfc0007ff 0x100001dc 0x0 (ap_reg_6_10 ∷ ap_reg_11_15 ∷ ap_reg_16_20 ∷ [])
    ∷ rule nmacchws_ 0xfc0007ff 0x100001dd 0x0 (ap_reg_6_10 ∷ ap_reg_11_15 ∷ ap_reg_16_20 ∷ [])
    ∷ rule nmacchwso 0xfc0007ff 0x100005dc 0x0 (ap_reg_6_10 ∷ ap_reg_11_15 ∷ ap_reg_16_20 ∷ [])
    ∷ rule nmacchwso_ 0xfc0007ff 0x100005dd 0x0 (ap_reg_6_10 ∷ ap_reg_11_15 ∷ ap_reg_16_20 ∷ [])
    ∷ rule nmachhw 0xfc0007ff 0x1000005c 0x0 (ap_reg_6_10 ∷ ap_reg_11_15 ∷ ap_reg_16_20 ∷ [])
    ∷ rule nmachhw_ 0xfc0007ff 0x1000005d 0x0 (ap_reg_6_10 ∷ ap_reg_11_15 ∷ ap_reg_16_20 ∷ [])
    ∷ rule nmachhwo 0xfc0007ff 0x1000045c 0x0 (ap_reg_6_10 ∷ ap_reg_11_15 ∷ ap_reg_16_20 ∷ [])
    ∷ rule nmachhwo_ 0xfc0007ff 0x1000045d 0x0 (ap_reg_6_10 ∷ ap_reg_11_15 ∷ ap_reg_16_20 ∷ [])
    ∷ rule nmachhws 0xfc0007ff 0x100000dc 0x0 (ap_reg_6_10 ∷ ap_reg_11_15 ∷ ap_reg_16_20 ∷ [])
    ∷ rule nmachhws_ 0xfc0007ff 0x100000dd 0x0 (ap_reg_6_10 ∷ ap_reg_11_15 ∷ ap_reg_16_20 ∷ [])
    ∷ rule nmachhwso 0xfc0007ff 0x100004dc 0x0 (ap_reg_6_10 ∷ ap_reg_11_15 ∷ ap_reg_16_20 ∷ [])
    ∷ rule nmachhwso_ 0xfc0007ff 0x100004dd 0x0 (ap_reg_6_10 ∷ ap_reg_11_15 ∷ ap_reg_16_20 ∷ [])
    ∷ rule nmaclhw 0xfc0007ff 0x1000035c 0x0 (ap_reg_6_10 ∷ ap_reg_11_15 ∷ ap_reg_16_20 ∷ [])
    ∷ rule nmaclhw_ 0xfc0007ff 0x1000035d 0x0 (ap_reg_6_10 ∷ ap_reg_11_15 ∷ ap_reg_16_20 ∷ [])
    ∷ rule nmaclhwo 0xfc0007ff 0x1000075c 0x0 (ap_reg_6_10 ∷ ap_reg_11_15 ∷ ap_reg_16_20 ∷ [])
    ∷ rule nmaclhwo_ 0xfc0007ff 0x1000075d 0x0 (ap_reg_6_10 ∷ ap_reg_11_15 ∷ ap_reg_16_20 ∷ [])
    ∷ rule nmaclhws 0xfc0007ff 0x100003dc 0x0 (ap_reg_6_10 ∷ ap_reg_11_15 ∷ ap_reg_16_20 ∷ [])
    ∷ rule nmaclhws_ 0xfc0007ff 0x100003dd 0x0 (ap_reg_6_10 ∷ ap_reg_11_15 ∷ ap_reg_16_20 ∷ [])
    ∷ rule nmaclhwso 0xfc0007ff 0x100007dc 0x0 (ap_reg_6_10 ∷ ap_reg_11_15 ∷ ap_reg_16_20 ∷ [])
    ∷ rule nmaclhwso_ 0xfc0007ff 0x100007dd 0x0 (ap_reg_6_10 ∷ ap_reg_11_15 ∷ ap_reg_16_20 ∷ [])
    ∷ rule icbi 0xfc0007fe 0x7c0007ac 0x3e00001 (ap_reg_11_15 ∷ ap_reg_16_20 ∷ [])
    ∷ rule icbt 0xfc0007fe 0x7c00002c 0x2000001
        (ap_imm_unsigned_7_10 ∷ ap_reg_11_15 ∷ ap_reg_16_20 ∷ [])
    ∷ rule dcba 0xfc0007fe 0x7c0005ec 0x3e00001 (ap_reg_11_15 ∷ ap_reg_16_20 ∷ [])
    ∷ rule dcbt 0xfc0007fe 0x7c00022c 0x1 (ap_reg_11_15 ∷ ap_reg_16_20 ∷ ap_imm_unsigned_6_10 ∷ [])
    ∷ rule dcbt 0xfc0007fe 0x7c00022c 0x1 (ap_imm_unsigned_6_10 ∷ ap_reg_11_15 ∷ ap_reg_16_20 ∷ [])
    ∷ rule dcbtst 0xfc0007fe 0x7c0001ec 0x1
        (ap_reg_11_15 ∷ ap_reg_16_20 ∷ ap_imm_unsigned_6_10 ∷ [])
    ∷ rule dcbtst 0xfc0007fe 0x7c0001ec 0x1
        (ap_imm_unsigned_6_10 ∷ ap_reg_11_15 ∷ ap_reg_16_20 ∷ [])
    ∷ rule dcbz 0xfc0007fe 0x7c0007ec 0x3e00001 (ap_reg_11_15 ∷ ap_reg_16_20 ∷ [])
    ∷ rule dcbst 0xfc0007fe 0x7c00006c 0x3e00001 (ap_reg_11_15 ∷ ap_reg_16_20 ∷ [])
    ∷ rule dcbf 0xfc0007fe 0x7c0000ac 0x3800001
        (ap_reg_11_15 ∷ ap_reg_16_20 ∷ ap_imm_unsigned_9_10 ∷ [])
    ∷ rule isync 0xfc0007fe 0x4c00012c 0x3fff801 ([])
    ∷ rule lbarx 0xfc0007ff 0x7c000068 0x0 (ap_reg_6_10 ∷ ap_reg_11_15 ∷ ap_reg_16_20 ∷ [])
    ∷ rule lbarx 0xfc0007fe 0x7c000068 0x0
        (ap_reg_6_10 ∷ ap_reg_11_15 ∷ ap_reg_16_20 ∷ ap_imm_unsigned_31_31 ∷ [])
    ∷ rule lharx 0xfc0007ff 0x7c0000e8 0x0 (ap_reg_6_10 ∷ ap_reg_11_15 ∷ ap_reg_16_20 ∷ [])
    ∷ rule lharx 0xfc0007fe 0x7c0000e8 0x0
        (ap_reg_6_10 ∷ ap_reg_11_15 ∷ ap_reg_16_20 ∷ ap_imm_unsigned_31_31 ∷ [])
    ∷ rule lwarx 0xfc0007ff 0x7c000028 0x0 (ap_reg_6_10 ∷ ap_reg_11_15 ∷ ap_reg_16_20 ∷ [])
    ∷ []

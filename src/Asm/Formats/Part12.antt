-- ===== src/Asm/Formats/Part12.antt =====
-- power64asm/tables.go: the rules of instFormats from EVMHEGSMIAA to EVMWSMFAN.
use mathlib.Core.List.{List, [], ◌∷◌}
use power.Asm.InstFormat.{InstFormat, rule}
use power.Asm.Fields.{ap_reg_6_10, ap_reg_11_15, ap_reg_16_20}
use power.Asm.Op.Part09.{
  evmhegsmiaa, evmhegumiaa, evmhegsmian, evmhegumian, evmhesmf, evmhesmfaaw, evmhesmfa, evmhesmfanw,
  evmhesmi, evmhesmiaaw, evmhesmia, evmhesmianw, evmhessf, evmhessfa, evmhessfaaw, evmhessfanw,
  evmhessiaaw, evmhessianw, evmheumi, evmheumiaaw, evmheumia, evmheumianw, evmheusiaaw, evmheusianw,
  evmhogsmfaa, evmhogsmiaa, evmhogsmfan, evmhogsmian, evmhogumiaa, evmhosmf, evmhogumian, evmhosmfa,
  evmhosmfaaw, evmhosmi, evmhosmfanw, evmhosmia, evmhosmiaaw, evmhosmianw, evmhossf, evmhossfa,
  evmhossfaaw, evmhossfanw, evmhossiaaw, evmhoumi, evmhossianw, evmhoumia, evmhoumiaaw, evmhousiaaw,
  evmhoumianw, evmhousianw,
}
use power.Asm.Op.Part10.{
  evmra, evmwhsmf, evmwhsmi, evmwhsmfa, evmwhsmia, evmwhssf, evmwhumi, evmwhssfa, evmwhumia,
  evmwlsmiaaw, evmwlssiaaw, evmwlsmianw, evmwlssianw, evmwlumi, evmwlumiaaw, evmwlumia, evmwlumianw,
  evmwlusiaaw, evmwsmf, evmwlusianw, evmwsmfa, evmwsmfaa, evmwsmi, evmwsmiaa, evmwsmfan,
}

unfoldable pub formats12 : List InstFormat
formats12 =
    rule evmhegsmiaa 0xfc0007ff 0x10000529 0x0 (ap_reg_6_10 ∷ ap_reg_11_15 ∷ ap_reg_16_20 ∷ [])
    ∷ rule evmhegumiaa 0xfc0007ff 0x10000528 0x0 (ap_reg_6_10 ∷ ap_reg_11_15 ∷ ap_reg_16_20 ∷ [])
    ∷ rule evmhegsmian 0xfc0007ff 0x100005a9 0x0 (ap_reg_6_10 ∷ ap_reg_11_15 ∷ ap_reg_16_20 ∷ [])
    ∷ rule evmhegumian 0xfc0007ff 0x100005a8 0x0 (ap_reg_6_10 ∷ ap_reg_11_15 ∷ ap_reg_16_20 ∷ [])
    ∷ rule evmhesmf 0xfc0007ff 0x1000040b 0x0 (ap_reg_6_10 ∷ ap_reg_11_15 ∷ ap_reg_16_20 ∷ [])
    ∷ rule evmhesmfaaw 0xfc0007ff 0x1000050b 0x0 (ap_reg_6_10 ∷ ap_reg_11_15 ∷ ap_reg_16_20 ∷ [])
    ∷ rule evmhesmfa 0xfc0007ff 0x1000042b 0x0 (ap_reg_6_10 ∷ ap_reg_11_15 ∷ ap_reg_16_20 ∷ [])
    ∷ rule evmhesmfanw 0xfc0007ff 0x1000058b 0x0 (ap_reg_6_10 ∷ ap_reg_11_15 ∷ ap_reg_16_20 ∷ [])
    ∷ rule evmhesmi 0xfc0007ff 0x10000409 0x0 (ap_reg_6_10 ∷ ap_reg_11_15 ∷ ap_reg_16_20 ∷ [])
    ∷ rule evmhesmiaaw 0xfc0007ff 0x10000509 0x0 (ap_reg_6_10 ∷ ap_reg_11_15 ∷ ap_reg_16_20 ∷ [])
    ∷ rule evmhesmia 0xfc0007ff 0x10000429 0x0 (ap_reg_6_10 ∷ ap_reg_11_15 ∷ ap_reg_16_20 ∷ [])
    ∷ rule evmhesmianw 0xfc0007ff 0x10000589 0x0 (ap_reg_6_10 ∷ ap_reg_11_15 ∷ ap_reg_16_20 ∷ [])
    ∷ rule evmhessf 0xfc0007ff 0x10000403 0x0 (ap_reg_6_10 ∷ ap_reg_11_15 ∷ ap_reg_16_20 ∷ [])
    ∷ rule evmhessfa 0xfc0007ff 0x10000423 0x0 (ap_reg_6_10 ∷ ap_reg_11_15 ∷ ap_reg_16_20 ∷ [])
    ∷ rule evmhessfaaw 0xfc0007ff 0x10000503 0x0 (ap_reg_6_10 ∷ ap_reg_11_15 ∷ ap_reg_16_20 ∷ [])
    ∷ rule evmhessfanw 0xfc0007ff 0x10000583 0x0 (ap_reg_6_10 ∷ ap_reg_11_15 ∷ ap_reg_16_20 ∷ [])
    ∷ rule evmhessiaaw 0xfc0007ff 0x10000501 0x0 (ap_reg_6_10 ∷ ap_reg_11_15 ∷ ap_reg_16_20 ∷ [])
    ∷ rule evmhessianw 0xfc0007ff 0x10000581 0x0 (ap_reg_6_10 ∷ ap_reg_11_15 ∷ ap_reg_16_20 ∷ [])
    ∷ rule evmheumi 0xfc0007ff 0x10000408 0x0 (ap_reg_6_10 ∷ ap_reg_11_15 ∷ ap_reg_16_20 ∷ [])
    ∷ rule evmheumiaaw 0xfc0007ff 0x10000508 0x0 (ap_reg_6_10 ∷ ap_reg_11_15 ∷ ap_reg_16_20 ∷ [])
    ∷ rule evmheumia 0xfc0007ff 0x10000428 0x0 (ap_reg_6_10 ∷ ap_reg_11_15 ∷ ap_reg_16_20 ∷ [])
    ∷ rule evmheumianw 0xfc0007ff 0x10000588 0x0 (ap_reg_6_10 ∷ ap_reg_11_15 ∷ ap_reg_16_20 ∷ [])
    ∷ rule evmheusiaaw 0xfc0007ff 0x10000500 0x0 (ap_reg_6_10 ∷ ap_reg_11_15 ∷ ap_reg_16_20 ∷ [])
    ∷ rule evmheusianw 0xfc0007ff 0x10000580 0x0 (ap_reg_6_10 ∷ ap_reg_11_15 ∷ ap_reg_16_20 ∷ [])
    ∷ rule evmhogsmfaa 0xfc0007ff 0x1000052f 0x0 (ap_reg_6_10 ∷ ap_reg_11_15 ∷ ap_reg_16_20 ∷ [])
    ∷ rule evmhogsmiaa 0xfc0007ff 0x1000052d 0x0 (ap_reg_6_10 ∷ ap_reg_11_15 ∷ ap_reg_16_20 ∷ [])
    ∷ rule evmhogsmfan 0xfc0007ff 0x100005af 0x0 (ap_reg_6_10 ∷ ap_reg_11_15 ∷ ap_reg_16_20 ∷ [])
    ∷ rule evmhogsmian 0xfc0007ff 0x100005ad 0x0 (ap_reg_6_10 ∷ ap_reg_11_15 ∷ ap_reg_16_20 ∷ [])
    ∷ rule evmhogumiaa 0xfc0007ff 0x1000052c 0x0 (ap_reg_6_10 ∷ ap_reg_11_15 ∷ ap_reg_16_20 ∷ [])
    ∷ rule evmhosmf 0xfc0007ff 0x1000040f 0x0 (ap_reg_6_10 ∷ ap_reg_11_15 ∷ ap_reg_16_20 ∷ [])
    ∷ rule evmhogumian 0xfc0007ff 0x100005ac 0x0 (ap_reg_6_10 ∷ ap_reg_11_15 ∷ ap_reg_16_20 ∷ [])
    ∷ rule evmhosmfa 0xfc0007ff 0x1000042f 0x0 (ap_reg_6_10 ∷ ap_reg_11_15 ∷ ap_reg_16_20 ∷ [])
    ∷ rule evmhosmfaaw 0xfc0007ff 0x1000050f 0x0 (ap_reg_6_10 ∷ ap_reg_11_15 ∷ ap_reg_16_20 ∷ [])
    ∷ rule evmhosmi 0xfc0007ff 0x1000040d 0x0 (ap_reg_6_10 ∷ ap_reg_11_15 ∷ ap_reg_16_20 ∷ [])
    ∷ rule evmhosmfanw 0xfc0007ff 0x1000058f 0x0 (ap_reg_6_10 ∷ ap_reg_11_15 ∷ ap_reg_16_20 ∷ [])
    ∷ rule evmhosmia 0xfc0007ff 0x1000042d 0x0 (ap_reg_6_10 ∷ ap_reg_11_15 ∷ ap_reg_16_20 ∷ [])
    ∷ rule evmhosmiaaw 0xfc0007ff 0x1000050d 0x0 (ap_reg_6_10 ∷ ap_reg_11_15 ∷ ap_reg_16_20 ∷ [])
    ∷ rule evmhosmianw 0xfc0007ff 0x1000058d 0x0 (ap_reg_6_10 ∷ ap_reg_11_15 ∷ ap_reg_16_20 ∷ [])
    ∷ rule evmhossf 0xfc0007ff 0x10000407 0x0 (ap_reg_6_10 ∷ ap_reg_11_15 ∷ ap_reg_16_20 ∷ [])
    ∷ rule evmhossfa 0xfc0007ff 0x10000427 0x0 (ap_reg_6_10 ∷ ap_reg_11_15 ∷ ap_reg_16_20 ∷ [])
    ∷ rule evmhossfaaw 0xfc0007ff 0x10000507 0x0 (ap_reg_6_10 ∷ ap_reg_11_15 ∷ ap_reg_16_20 ∷ [])
    ∷ rule evmhossfanw 0xfc0007ff 0x10000587 0x0 (ap_reg_6_10 ∷ ap_reg_11_15 ∷ ap_reg_16_20 ∷ [])
    ∷ rule evmhossiaaw 0xfc0007ff 0x10000505 0x0 (ap_reg_6_10 ∷ ap_reg_11_15 ∷ ap_reg_16_20 ∷ [])
    ∷ rule evmhoumi 0xfc0007ff 0x1000040c 0x0 (ap_reg_6_10 ∷ ap_reg_11_15 ∷ ap_reg_16_20 ∷ [])
    ∷ rule evmhossianw 0xfc0007ff 0x10000585 0x0 (ap_reg_6_10 ∷ ap_reg_11_15 ∷ ap_reg_16_20 ∷ [])
    ∷ rule evmhoumia 0xfc0007ff 0x1000042c 0x0 (ap_reg_6_10 ∷ ap_reg_11_15 ∷ ap_reg_16_20 ∷ [])
    ∷ rule evmhoumiaaw 0xfc0007ff 0x1000050c 0x0 (ap_reg_6_10 ∷ ap_reg_11_15 ∷ ap_reg_16_20 ∷ [])
    ∷ rule evmhousiaaw 0xfc0007ff 0x10000504 0x0 (ap_reg_6_10 ∷ ap_reg_11_15 ∷ ap_reg_16_20 ∷ [])
    ∷ rule evmhoumianw 0xfc0007ff 0x1000058c 0x0 (ap_reg_6_10 ∷ ap_reg_11_15 ∷ ap_reg_16_20 ∷ [])
    ∷ rule evmhousianw 0xfc0007ff 0x10000584 0x0 (ap_reg_6_10 ∷ ap_reg_11_15 ∷ ap_reg_16_20 ∷ [])
    ∷ rule evmra 0xfc0007ff 0x100004c4 0xf800 (ap_reg_6_10 ∷ ap_reg_11_15 ∷ [])
    ∷ rule evmwhsmf 0xfc0007ff 0x1000044f 0x0 (ap_reg_6_10 ∷ ap_reg_11_15 ∷ ap_reg_16_20 ∷ [])
    ∷ rule evmwhsmi 0xfc0007ff 0x1000044d 0x0 (ap_reg_6_10 ∷ ap_reg_11_15 ∷ ap_reg_16_20 ∷ [])
    ∷ rule evmwhsmfa 0xfc0007ff 0x1000046f 0x0 (ap_reg_6_10 ∷ ap_reg_11_15 ∷ ap_reg_16_20 ∷ [])
    ∷ rule evmwhsmia 0xfc0007ff 0x1000046d 0x0 (ap_reg_6_10 ∷ ap_reg_11_15 ∷ ap_reg_16_20 ∷ [])
    ∷ rule evmwhssf 0xfc0007ff 0x10000447 0x0 (ap_reg_6_10 ∷ ap_reg_11_15 ∷ ap_reg_16_20 ∷ [])
    ∷ rule evmwhumi 0xfc0007ff 0x1000044c 0x0 (ap_reg_6_10 ∷ ap_reg_11_15 ∷ ap_reg_16_20 ∷ [])
    ∷ rule evmwhssfa 0xfc0007ff 0x10000467 0x0 (ap_reg_6_10 ∷ ap_reg_11_15 ∷ ap_reg_16_20 ∷ [])
    ∷ rule evmwhumia 0xfc0007ff 0x1000046c 0x0 (ap_reg_6_10 ∷ ap_reg_11_15 ∷ ap_reg_16_20 ∷ [])
    ∷ rule evmwlsmiaaw 0xfc0007ff 0x10000549 0x0 (ap_reg_6_10 ∷ ap_reg_11_15 ∷ ap_reg_16_20 ∷ [])
    ∷ rule evmwlssiaaw 0xfc0007ff 0x10000541 0x0 (ap_reg_6_10 ∷ ap_reg_11_15 ∷ ap_reg_16_20 ∷ [])
    ∷ rule evmwlsmianw 0xfc0007ff 0x100005c9 0x0 (ap_reg_6_10 ∷ ap_reg_11_15 ∷ ap_reg_16_20 ∷ [])
    ∷ rule evmwlssianw 0xfc0007ff 0x100005c1 0x0 (ap_reg_6_10 ∷ ap_reg_11_15 ∷ ap_reg_16_20 ∷ [])
    ∷ rule evmwlumi 0xfc0007ff 0x10000448 0x0 (ap_reg_6_10 ∷ ap_reg_11_15 ∷ ap_reg_16_20 ∷ [])
    ∷ rule evmwlumiaaw 0xfc0007ff 0x10000548 0x0 (ap_reg_6_10 ∷ ap_reg_11_15 ∷ ap_reg_16_20 ∷ [])
    ∷ rule evmwlumia 0xfc0007ff 0x10000468 0x0 (ap_reg_6_10 ∷ ap_reg_11_15 ∷ ap_reg_16_20 ∷ [])
    ∷ rule evmwlumianw 0xfc0007ff 0x100005c8 0x0 (ap_reg_6_10 ∷ ap_reg_11_15 ∷ ap_reg_16_20 ∷ [])
    ∷ rule evmwlusiaaw 0xfc0007ff 0x10000540 0x0 (ap_reg_6_10 ∷ ap_reg_11_15 ∷ ap_reg_16_20 ∷ [])
    ∷ rule evmwsmf 0xfc0007ff 0x1000045b 0x0 (ap_reg_6_10 ∷ ap_reg_11_15 ∷ ap_reg_16_20 ∷ [])
    ∷ rule evmwlusianw 0xfc0007ff 0x100005c0 0x0 (ap_reg_6_10 ∷ ap_reg_11_15 ∷ ap_reg_16_20 ∷ [])
    ∷ rule evmwsmfa 0xfc0007ff 0x1000047b 0x0 (ap_reg_6_10 ∷ ap_reg_11_15 ∷ ap_reg_16_20 ∷ [])
    ∷ rule evmwsmfaa 0xfc0007ff 0x1000055b 0x0 (ap_reg_6_10 ∷ ap_reg_11_15 ∷ ap_reg_16_20 ∷ [])
    ∷ rule evmwsmi 0xfc0007ff 0x10000459 0x0 (ap_reg_6_10 ∷ ap_reg_11_15 ∷ ap_reg_16_20 ∷ [])
    ∷ rule evmwsmiaa 0xfc0007ff 0x10000559 0x0 (ap_reg_6_10 ∷ ap_reg_11_15 ∷ ap_reg_16_20 ∷ [])
    ∷ rule evmwsmfan 0xfc0007ff 0x100005db 0x0 (ap_reg_6_10 ∷ ap_reg_11_15 ∷ ap_reg_16_20 ∷ [])
    ∷ []

-- ===== src/Asm/Formats/Part13.antt =====
-- power64asm/tables.go: the rules of instFormats from EVMWSMIA to EFSADD.
use mathlib.Core.List.{List, [], ◌∷◌}
use power.Asm.InstFormat.{InstFormat, rule}
use power.Asm.Fields.{
  ap_reg_6_10, ap_reg_11_15, ap_reg_16_20, ap_imm_unsigned_16_20, ap_cond_reg_field_29_31,
  ap_imm_signed_11_15, ap_imm_unsigned_11_15, ap_cond_reg_field_6_8,
}
use power.Asm.Op.Part10.{
  evmwsmia, evmwsmian, evmwssf, evmwssfa, evmwssfaa, evmwumi, evmwssfan, evmwumia, evmwumiaa,
  evnand, evmwumian, evneg, evnor, evorc, evor, evrlw, evrlwi, evsel, evrndw, evslw, evsplatfi,
  evsrwis, evslwi, evsplati, evsrwiu, evsrws, evstdd, evsrwu, evstddx, evstdh, evstdw, evstdhx,
  evstdwx, evstwhe, evstwho, evstwwe, evstwhex, evstwhox, evstwwex, evstwwo, evsubfsmiaaw, evstwwox,
  evsubfssiaaw, evsubfumiaaw, evsubfusiaaw, evsubfw, evsubifw, evxor, evfsabs, evfsnabs, evfsneg,
  evfsadd, evfsmul, evfssub, evfsdiv, evfscmpgt, evfscmplt, evfscmpeq, evfststgt, evfststlt,
  evfststeq, evfscfsi, evfscfsf, evfscfui, evfscfuf, evfsctsi, evfsctui, evfsctsiz, evfsctuiz,
  evfsctsf,
}
use power.Asm.Op.Part11.{evfsctuf, efsabs, efsneg, efsnabs, efsadd}

unfoldable pub formats13 : List InstFormat
formats13 =
    rule evmwsmia 0xfc0007ff 0x10000479 0x0 (ap_reg_6_10 ∷ ap_reg_11_15 ∷ ap_reg_16_20 ∷ [])
    ∷ rule evmwsmian 0xfc0007ff 0x100005d9 0x0 (ap_reg_6_10 ∷ ap_reg_11_15 ∷ ap_reg_16_20 ∷ [])
    ∷ rule evmwssf 0xfc0007ff 0x10000453 0x0 (ap_reg_6_10 ∷ ap_reg_11_15 ∷ ap_reg_16_20 ∷ [])
    ∷ rule evmwssfa 0xfc0007ff 0x10000473 0x0 (ap_reg_6_10 ∷ ap_reg_11_15 ∷ ap_reg_16_20 ∷ [])
    ∷ rule evmwssfaa 0xfc0007ff 0x10000553 0x0 (ap_reg_6_10 ∷ ap_reg_11_15 ∷ ap_reg_16_20 ∷ [])
    ∷ rule evmwumi 0xfc0007ff 0x10000458 0x0 (ap_reg_6_10 ∷ ap_reg_11_15 ∷ ap_reg_16_20 ∷ [])
    ∷ rule evmwssfan 0xfc0007ff 0x100005d3 0x0 (ap_reg_6_10 ∷ ap_reg_11_15 ∷ ap_reg_16_20 ∷ [])
    ∷ rule evmwumia 0xfc0007ff 0x10000478 0x0 (ap_reg_6_10 ∷ ap_reg_11_15 ∷ ap_reg_16_20 ∷ [])
    ∷ rule evmwumiaa 0xfc0007ff 0x10000558 0x0 (ap_reg_6_10 ∷ ap_reg_11_15 ∷ ap_reg_16_20 ∷ [])
    ∷ rule evnand 0xfc0007ff 0x1000021e 0x0 (ap_reg_6_10 ∷ ap_reg_11_15 ∷ ap_reg_16_20 ∷ [])
    ∷ rule evmwumian 0xfc0007ff 0x100005d8 0x0 (ap_reg_6_10 ∷ ap_reg_11_15 ∷ ap_reg_16_20 ∷ [])
    ∷ rule evneg 0xfc0007ff 0x10000209 0xf800 (ap_reg_6_10 ∷ ap_reg_11_15 ∷ [])
    ∷ rule evnor 0xfc0007ff 0x10000218 0x0 (ap_reg_6_10 ∷ ap_reg_11_15 ∷ ap_reg_16_20 ∷ [])
    ∷ rule evorc 0xfc0007ff 0x1000021b 0x0 (ap_reg_6_10 ∷ ap_reg_11_15 ∷ ap_reg_16_20 ∷ [])
    ∷ rule evor 0xfc0007ff 0x10000217 0x0 (ap_reg_6_10 ∷ ap_reg_11_15 ∷ ap_reg_16_20 ∷ [])
    ∷ rule evrlw 0xfc0007ff 0x10000228 0x0 (ap_reg_6_10 ∷ ap_reg_11_15 ∷ ap_reg_16_20 ∷ [])
    ∷ rule evrlwi 0xfc0007ff 0x1000022a 0x0
        (ap_reg_6_10 ∷ ap_reg_11_15 ∷ ap_imm_unsigned_16_20 ∷ [])
    ∷ rule evsel 0xfc0007f8 0x10000278 0x0
        (ap_reg_6_10 ∷ ap_reg_11_15 ∷ ap_reg_16_20 ∷ ap_cond_reg_field_29_31 ∷ [])
    ∷ rule evrndw 0xfc0007ff 0x1000020c 0xf800 (ap_reg_6_10 ∷ ap_reg_11_15 ∷ [])
    ∷ rule evslw 0xfc0007ff 0x10000224 0x0 (ap_reg_6_10 ∷ ap_reg_11_15 ∷ ap_reg_16_20 ∷ [])
    ∷ rule evsplatfi 0xfc0007ff 0x1000022b 0xf800 (ap_reg_6_10 ∷ ap_imm_signed_11_15 ∷ [])
    ∷ rule evsrwis 0xfc0007ff 0x10000223 0x0
        (ap_reg_6_10 ∷ ap_reg_11_15 ∷ ap_imm_unsigned_16_20 ∷ [])
    ∷ rule evslwi 0xfc0007ff 0x10000226 0x0
        (ap_reg_6_10 ∷ ap_reg_11_15 ∷ ap_imm_unsigned_16_20 ∷ [])
    ∷ rule evsplati 0xfc0007ff 0x10000229 0xf800 (ap_reg_6_10 ∷ ap_imm_signed_11_15 ∷ [])
    ∷ rule evsrwiu 0xfc0007ff 0x10000222 0x0
        (ap_reg_6_10 ∷ ap_reg_11_15 ∷ ap_imm_unsigned_16_20 ∷ [])
    ∷ rule evsrws 0xfc0007ff 0x10000221 0x0 (ap_reg_6_10 ∷ ap_reg_11_15 ∷ ap_reg_16_20 ∷ [])
    ∷ rule evstdd 0xfc0007ff 0x10000321 0x0
        (ap_reg_6_10 ∷ ap_imm_unsigned_16_20 ∷ ap_reg_11_15 ∷ [])
    ∷ rule evsrwu 0xfc0007ff 0x10000220 0x0 (ap_reg_6_10 ∷ ap_reg_11_15 ∷ ap_reg_16_20 ∷ [])
    ∷ rule evstddx 0xfc0007ff 0x10000320 0x0 (ap_reg_6_10 ∷ ap_reg_11_15 ∷ ap_reg_16_20 ∷ [])
    ∷ rule evstdh 0xfc0007ff 0x10000325 0x0
        (ap_reg_6_10 ∷ ap_imm_unsigned_16_20 ∷ ap_reg_11_15 ∷ [])
    ∷ rule evstdw 0xfc0007ff 0x10000323 0x0
        (ap_reg_6_10 ∷ ap_imm_unsigned_16_20 ∷ ap_reg_11_15 ∷ [])
    ∷ rule evstdhx 0xfc0007ff 0x10000324 0x0 (ap_reg_6_10 ∷ ap_reg_11_15 ∷ ap_reg_16_20 ∷ [])
    ∷ rule evstdwx 0xfc0007ff 0x10000322 0x0 (ap_reg_6_10 ∷ ap_reg_11_15 ∷ ap_reg_16_20 ∷ [])
    ∷ rule evstwhe 0xfc0007ff 0x10000331 0x0
        (ap_reg_6_10 ∷ ap_imm_unsigned_16_20 ∷ ap_reg_11_15 ∷ [])
    ∷ rule evstwho 0xfc0007ff 0x10000335 0x0
        (ap_reg_6_10 ∷ ap_imm_unsigned_16_20 ∷ ap_reg_11_15 ∷ [])
    ∷ rule evstwwe 0xfc0007ff 0x10000339 0x0
        (ap_reg_6_10 ∷ ap_imm_unsigned_16_20 ∷ ap_reg_11_15 ∷ [])
    ∷ rule evstwhex 0xfc0007ff 0x10000330 0x0 (ap_reg_6_10 ∷ ap_reg_11_15 ∷ ap_reg_16_20 ∷ [])
    ∷ rule evstwhox 0xfc0007ff 0x10000334 0x0 (ap_reg_6_10 ∷ ap_reg_11_15 ∷ ap_reg_16_20 ∷ [])
    ∷ rule evstwwex 0xfc0007ff 0x10000338 0x0 (ap_reg_6_10 ∷ ap_reg_11_15 ∷ ap_reg_16_20 ∷ [])
    ∷ rule evstwwo 0xfc0007ff 0x1000033d 0x0
        (ap_reg_6_10 ∷ ap_imm_unsigned_16_20 ∷ ap_reg_11_15 ∷ [])
    ∷ rule evsubfsmiaaw 0xfc0007ff 0x100004cb 0xf800 (ap_reg_6_10 ∷ ap_reg_11_15 ∷ [])
    ∷ rule evstwwox 0xfc0007ff 0x1000033c 0x0 (ap_reg_6_10 ∷ ap_reg_11_15 ∷ ap_reg_16_20 ∷ [])
    ∷ rule evsubfssiaaw 0xfc0007ff 0x100004c3 0xf800 (ap_reg_6_10 ∷ ap_reg_11_15 ∷ [])
    ∷ rule evsubfumiaaw 0xfc0007ff 0x100004ca 0xf800 (ap_reg_6_10 ∷ ap_reg_11_15 ∷ [])
    ∷ rule evsubfusiaaw 0xfc0007ff 0x100004c2 0xf800 (ap_reg_6_10 ∷ ap_reg_11_15 ∷ [])
    ∷ rule evsubfw 0xfc0007ff 0x10000204 0x0 (ap_reg_6_10 ∷ ap_reg_11_15 ∷ ap_reg_16_20 ∷ [])
    ∷ rule evsubifw 0xfc0007ff 0x10000206 0x0
        (ap_reg_6_10 ∷ ap_imm_unsigned_11_15 ∷ ap_reg_16_20 ∷ [])
    ∷ rule evxor 0xfc0007ff 0x10000216 0x0 (ap_reg_6_10 ∷ ap_reg_11_15 ∷ ap_reg_16_20 ∷ [])
    ∷ rule evfsabs 0xfc0007ff 0x10000284 0xf800 (ap_reg_6_10 ∷ ap_reg_11_15 ∷ [])
    ∷ rule evfsnabs 0xfc0007ff 0x10000285 0xf800 (ap_reg_6_10 ∷ ap_reg_11_15 ∷ [])
    ∷ rule evfsneg 0xfc0007ff 0x10000286 0xf800 (ap_reg_6_10 ∷ ap_reg_11_15 ∷ [])
    ∷ rule evfsadd 0xfc0007ff 0x10000280 0x0 (ap_reg_6_10 ∷ ap_reg_11_15 ∷ ap_reg_16_20 ∷ [])
    ∷ rule evfsmul 0xfc0007ff 0x10000288 0x0 (ap_reg_6_10 ∷ ap_reg_11_15 ∷ ap_reg_16_20 ∷ [])
    ∷ rule evfssub 0xfc0007ff 0x10000281 0x0 (ap_reg_6_10 ∷ ap_reg_11_15 ∷ ap_reg_16_20 ∷ [])
    ∷ rule evfsdiv 0xfc0007ff 0x10000289 0x0 (ap_reg_6_10 ∷ ap_reg_11_15 ∷ ap_reg_16_20 ∷ [])
    ∷ rule evfscmpgt 0xfc0007ff 0x1000028c 0x600000
        (ap_cond_reg_field_6_8 ∷ ap_reg_11_15 ∷ ap_reg_16_20 ∷ [])
    ∷ rule evfscmplt 0xfc0007ff 0x1000028d 0x600000
        (ap_cond_reg_field_6_8 ∷ ap_reg_11_15 ∷ ap_reg_16_20 ∷ [])
    ∷ rule evfscmpeq 0xfc0007ff 0x1000028e 0x600000
        (ap_cond_reg_field_6_8 ∷ ap_reg_11_15 ∷ ap_reg_16_20 ∷ [])
    ∷ rule evfststgt 0xfc0007ff 0x1000029c 0x600000
        (ap_cond_reg_field_6_8 ∷ ap_reg_11_15 ∷ ap_reg_16_20 ∷ [])
    ∷ rule evfststlt 0xfc0007ff 0x1000029d 0x600000
        (ap_cond_reg_field_6_8 ∷ ap_reg_11_15 ∷ ap_reg_16_20 ∷ [])
    ∷ rule evfststeq 0xfc0007ff 0x1000029e 0x600000
        (ap_cond_reg_field_6_8 ∷ ap_reg_11_15 ∷ ap_reg_16_20 ∷ [])
    ∷ rule evfscfsi 0xfc0007ff 0x10000291 0x1f0000 (ap_reg_6_10 ∷ ap_reg_16_20 ∷ [])
    ∷ rule evfscfsf 0xfc0007ff 0x10000293 0x1f0000 (ap_reg_6_10 ∷ ap_reg_16_20 ∷ [])
    ∷ rule evfscfui 0xfc0007ff 0x10000290 0x1f0000 (ap_reg_6_10 ∷ ap_reg_16_20 ∷ [])
    ∷ rule evfscfuf 0xfc0007ff 0x10000292 0x1f0000 (ap_reg_6_10 ∷ ap_reg_16_20 ∷ [])
    ∷ rule evfsctsi 0xfc0007ff 0x10000295 0x1f0000 (ap_reg_6_10 ∷ ap_reg_16_20 ∷ [])
    ∷ rule evfsctui 0xfc0007ff 0x10000294 0x1f0000 (ap_reg_6_10 ∷ ap_reg_16_20 ∷ [])
    ∷ rule evfsctsiz 0xfc0007ff 0x1000029a 0x1f0000 (ap_reg_6_10 ∷ ap_reg_16_20 ∷ [])
    ∷ rule evfsctuiz 0xfc0007ff 0x10000298 0x1f0000 (ap_reg_6_10 ∷ ap_reg_16_20 ∷ [])
    ∷ rule evfsctsf 0xfc0007ff 0x10000297 0x1f0000 (ap_reg_6_10 ∷ ap_reg_16_20 ∷ [])
    ∷ rule evfsctuf 0xfc0007ff 0x10000296 0x1f0000 (ap_reg_6_10 ∷ ap_reg_16_20 ∷ [])
    ∷ rule efsabs 0xfc0007ff 0x100002c4 0xf800 (ap_reg_6_10 ∷ ap_reg_11_15 ∷ [])
    ∷ rule efsneg 0xfc0007ff 0x100002c6 0xf800 (ap_reg_6_10 ∷ ap_reg_11_15 ∷ [])
    ∷ rule efsnabs 0xfc0007ff 0x100002c5 0xf800 (ap_reg_6_10 ∷ ap_reg_11_15 ∷ [])
    ∷ rule efsadd 0xfc0007ff 0x100002c0 0x0 (ap_reg_6_10 ∷ ap_reg_11_15 ∷ ap_reg_16_20 ∷ [])
    ∷ []

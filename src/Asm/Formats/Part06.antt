-- ===== src/Asm/Formats/Part06.antt =====
-- power64asm/tables.go: the rules of instFormats from VMRGHW to VAVGSB.
use mathlib.Core.List.{List, [], ◌∷◌}
use power.Asm.InstFormat.{InstFormat, rule}
use power.Asm.Fields.{
  ap_vec_reg_6_10, ap_vec_reg_11_15, ap_vec_reg_16_20, ap_imm_unsigned_12_15, ap_imm_unsigned_13_15,
  ap_imm_unsigned_14_15, ap_imm_signed_11_15, ap_vec_reg_21_25, ap_imm_unsigned_22_25,
}
use power.Asm.Op.Part04.{
  vmrghw, vmrglw, vmrgew, vmrgow, vspltb, vsplth, vspltw, vspltisb, vspltish, vspltisw, vperm, vsel,
  vsl, vsldoi, vslo, vsr, vsro, vaddcuw, vaddsbs, vaddshs, vaddsws, vaddubm, vaddudm, vadduhm,
  vadduwm,
}
use power.Asm.Op.Part05.{
  vaddubs, vadduhs, vadduws, vadduqm, vaddeuqm, vaddcuq, vaddecuq, vsubcuw, vsubsbs, vsubshs,
  vsubsws, vsububm, vsubudm, vsubuhm, vsubuwm, vsububs, vsubuhs, vsubuws, vsubuqm, vsubeuqm,
  vsubcuq, vsubecuq, vmulesb, vmuleub, vmulosb, vmuloub, vmulesh, vmuleuh, vmulosh, vmulouh,
  vmulesw, vmuleuw, vmulosw, vmulouw, vmuluwm, vmhaddshs, vmhraddshs, vmladduhm, vmsumubm, vmsummbm,
  vmsumshm, vmsumshs, vmsumuhm, vmsumuhs, vsumsws, vsum2sws, vsum4sbs, vsum4shs, vsum4ubs, vavgsb,
}

unfoldable pub formats06 : List InstFormat
formats06 =
    rule vmrghw 0xfc0007ff 0x1000008c 0x0
      (ap_vec_reg_6_10 ∷ ap_vec_reg_11_15 ∷ ap_vec_reg_16_20 ∷ [])
    ∷ rule vmrglw 0xfc0007ff 0x1000018c 0x0
        (ap_vec_reg_6_10 ∷ ap_vec_reg_11_15 ∷ ap_vec_reg_16_20 ∷ [])
    ∷ rule vmrgew 0xfc0007ff 0x1000078c 0x0
        (ap_vec_reg_6_10 ∷ ap_vec_reg_11_15 ∷ ap_vec_reg_16_20 ∷ [])
    ∷ rule vmrgow 0xfc0007ff 0x1000068c 0x0
        (ap_vec_reg_6_10 ∷ ap_vec_reg_11_15 ∷ ap_vec_reg_16_20 ∷ [])
    ∷ rule vspltb 0xfc0007ff 0x1000020c 0x100000
        (ap_vec_reg_6_10 ∷ ap_vec_reg_16_20 ∷ ap_imm_unsigned_12_15 ∷ [])
    ∷ rule vsplth 0xfc0007ff 0x1000024c 0x180000
        (ap_vec_reg_6_10 ∷ ap_vec_reg_16_20 ∷ ap_imm_unsigned_13_15 ∷ [])
    ∷ rule vspltw 0xfc0007ff 0x1000028c 0x1c0000
        (ap_vec_reg_6_10 ∷ ap_vec_reg_16_20 ∷ ap_imm_unsigned_14_15 ∷ [])
    ∷ rule vspltisb 0xfc0007ff 0x1000030c 0xf800 (ap_vec_reg_6_10 ∷ ap_imm_signed_11_15 ∷ [])
    ∷ rule vspltish 0xfc0007ff 0x1000034c 0xf800 (ap_vec_reg_6_10 ∷ ap_imm_signed_11_15 ∷ [])
    ∷ rule vspltisw 0xfc0007ff 0x1000038c 0xf800 (ap_vec_reg_6_10 ∷ ap_imm_signed_11_15 ∷ [])
    ∷ rule vperm 0xfc00003f 0x1000002b 0x0
        (ap_vec_reg_6_10 ∷ ap_vec_reg_11_15 ∷ ap_vec_reg_16_20 ∷ ap_vec_reg_21_25 ∷ [])
    ∷ rule vsel 0xfc00003f 0x1000002a 0x0
        (ap_vec_reg_6_10 ∷ ap_vec_reg_11_15 ∷ ap_vec_reg_16_20 ∷ ap_vec_reg_21_25 ∷ [])
    ∷ rule vsl 0xfc0007ff 0x100001c4 0x0
        (ap_vec_reg_6_10 ∷ ap_vec_reg_11_15 ∷ ap_vec_reg_16_20 ∷ [])
    ∷ rule vsldoi 0xfc00003f 0x1000002c 0x400
        (ap_vec_reg_6_10 ∷ ap_vec_reg_11_15 ∷ ap_vec_reg_16_20 ∷ ap_imm_unsigned_22_25 ∷ [])
    ∷ rule vslo 0xfc0007ff 0x1000040c 0x0
        (ap_vec_reg_6_10 ∷ ap_vec_reg_11_15 ∷ ap_vec_reg_16_20 ∷ [])
    ∷ rule vsr 0xfc0007ff 0x100002c4 0x0
        (ap_vec_reg_6_10 ∷ ap_vec_reg_11_15 ∷ ap_vec_reg_16_20 ∷ [])
    ∷ rule vsro 0xfc0007ff 0x1000044c 0x0
        (ap_vec_reg_6_10 ∷ ap_vec_reg_11_15 ∷ ap_vec_reg_16_20 ∷ [])
    ∷ rule vaddcuw 0xfc0007ff 0x10000180 0x0
        (ap_vec_reg_6_10 ∷ ap_vec_reg_11_15 ∷ ap_vec_reg_16_20 ∷ [])
    ∷ rule vaddsbs 0xfc0007ff 0x10000300 0x0
        (ap_vec_reg_6_10 ∷ ap_vec_reg_11_15 ∷ ap_vec_reg_16_20 ∷ [])
    ∷ rule vaddshs 0xfc0007ff 0x10000340 0x0
        (ap_vec_reg_6_10 ∷ ap_vec_reg_11_15 ∷ ap_vec_reg_16_20 ∷ [])
    ∷ rule vaddsws 0xfc0007ff 0x10000380 0x0
        (ap_vec_reg_6_10 ∷ ap_vec_reg_11_15 ∷ ap_vec_reg_16_20 ∷ [])
    ∷ rule vaddubm 0xfc0007ff 0x10000000 0x0
        (ap_vec_reg_6_10 ∷ ap_vec_reg_11_15 ∷ ap_vec_reg_16_20 ∷ [])
    ∷ rule vaddudm 0xfc0007ff 0x100000c0 0x0
        (ap_vec_reg_6_10 ∷ ap_vec_reg_11_15 ∷ ap_vec_reg_16_20 ∷ [])
    ∷ rule vadduhm 0xfc0007ff 0x10000040 0x0
        (ap_vec_reg_6_10 ∷ ap_vec_reg_11_15 ∷ ap_vec_reg_16_20 ∷ [])
    ∷ rule vadduwm 0xfc0007ff 0x10000080 0x0
        (ap_vec_reg_6_10 ∷ ap_vec_reg_11_15 ∷ ap_vec_reg_16_20 ∷ [])
    ∷ rule vaddubs 0xfc0007ff 0x10000200 0x0
        (ap_vec_reg_6_10 ∷ ap_vec_reg_11_15 ∷ ap_vec_reg_16_20 ∷ [])
    ∷ rule vadduhs 0xfc0007ff 0x10000240 0x0
        (ap_vec_reg_6_10 ∷ ap_vec_reg_11_15 ∷ ap_vec_reg_16_20 ∷ [])
    ∷ rule vadduws 0xfc0007ff 0x10000280 0x0
        (ap_vec_reg_6_10 ∷ ap_vec_reg_11_15 ∷ ap_vec_reg_16_20 ∷ [])
    ∷ rule vadduqm 0xfc0007ff 0x10000100 0x0
        (ap_vec_reg_6_10 ∷ ap_vec_reg_11_15 ∷ ap_vec_reg_16_20 ∷ [])
    ∷ rule vaddeuqm 0xfc00003f 0x1000003c 0x0
        (ap_vec_reg_6_10 ∷ ap_vec_reg_11_15 ∷ ap_vec_reg_16_20 ∷ ap_vec_reg_21_25 ∷ [])
    ∷ rule vaddcuq 0xfc0007ff 0x10000140 0x0
        (ap_vec_reg_6_10 ∷ ap_vec_reg_11_15 ∷ ap_vec_reg_16_20 ∷ [])
    ∷ rule vaddecuq 0xfc00003f 0x1000003d 0x0
        (ap_vec_reg_6_10 ∷ ap_vec_reg_11_15 ∷ ap_vec_reg_16_20 ∷ ap_vec_reg_21_25 ∷ [])
    ∷ rule vsubcuw 0xfc0007ff 0x10000580 0x0
        (ap_vec_reg_6_10 ∷ ap_vec_reg_11_15 ∷ ap_vec_reg_16_20 ∷ [])
    ∷ rule vsubsbs 0xfc0007ff 0x10000700 0x0
        (ap_vec_reg_6_10 ∷ ap_vec_reg_11_15 ∷ ap_vec_reg_16_20 ∷ [])
    ∷ rule vsubshs 0xfc0007ff 0x10000740 0x0
        (ap_vec_reg_6_10 ∷ ap_vec_reg_11_15 ∷ ap_vec_reg_16_20 ∷ [])
    ∷ rule vsubsws 0xfc0007ff 0x10000780 0x0
        (ap_vec_reg_6_10 ∷ ap_vec_reg_11_15 ∷ ap_vec_reg_16_20 ∷ [])
    ∷ rule vsububm 0xfc0007ff 0x10000400 0x0
        (ap_vec_reg_6_10 ∷ ap_vec_reg_11_15 ∷ ap_vec_reg_16_20 ∷ [])
    ∷ rule vsubudm 0xfc0007ff 0x100004c0 0x0
        (ap_vec_reg_6_10 ∷ ap_vec_reg_11_15 ∷ ap_vec_reg_16_20 ∷ [])
    ∷ rule vsubuhm 0xfc0007ff 0x10000440 0x0
        (ap_vec_reg_6_10 ∷ ap_vec_reg_11_15 ∷ ap_vec_reg_16_20 ∷ [])
    ∷ rule vsubuwm 0xfc0007ff 0x10000480 0x0
        (ap_vec_reg_6_10 ∷ ap_vec_reg_11_15 ∷ ap_vec_reg_16_20 ∷ [])
    ∷ rule vsububs 0xfc0007ff 0x10000600 0x0
        (ap_vec_reg_6_10 ∷ ap_vec_reg_11_15 ∷ ap_vec_reg_16_20 ∷ [])
    ∷ rule vsubuhs 0xfc0007ff 0x10000640 0x0
        (ap_vec_reg_6_10 ∷ ap_vec_reg_11_15 ∷ ap_vec_reg_16_20 ∷ [])
    ∷ rule vsubuws 0xfc0007ff 0x10000680 0x0
        (ap_vec_reg_6_10 ∷ ap_vec_reg_11_15 ∷ ap_vec_reg_16_20 ∷ [])
    ∷ rule vsubuqm 0xfc0007ff 0x10000500 0x0
        (ap_vec_reg_6_10 ∷ ap_vec_reg_11_15 ∷ ap_vec_reg_16_20 ∷ [])
    ∷ rule vsubeuqm 0xfc00003f 0x1000003e 0x0
        (ap_vec_reg_6_10 ∷ ap_vec_reg_11_15 ∷ ap_vec_reg_16_20 ∷ ap_vec_reg_21_25 ∷ [])
    ∷ rule vsubcuq 0xfc0007ff 0x10000540 0x0
        (ap_vec_reg_6_10 ∷ ap_vec_reg_11_15 ∷ ap_vec_reg_16_20 ∷ [])
    ∷ rule vsubecuq 0xfc00003f 0x1000003f 0x0
        (ap_vec_reg_6_10 ∷ ap_vec_reg_11_15 ∷ ap_vec_reg_16_20 ∷ ap_vec_reg_21_25 ∷ [])
    ∷ rule vmulesb 0xfc0007ff 0x10000308 0x0
        (ap_vec_reg_6_10 ∷ ap_vec_reg_11_15 ∷ ap_vec_reg_16_20 ∷ [])
    ∷ rule vmuleub 0xfc0007ff 0x10000208 0x0
        (ap_vec_reg_6_10 ∷ ap_vec_reg_11_15 ∷ ap_vec_reg_16_20 ∷ [])
    ∷ rule vmulosb 0xfc0007ff 0x10000108 0x0
        (ap_vec_reg_6_10 ∷ ap_vec_reg_11_15 ∷ ap_vec_reg_16_20 ∷ [])
    ∷ rule vmuloub 0xfc0007ff 0x10000008 0x0
        (ap_vec_reg_6_10 ∷ ap_vec_reg_11_15 ∷ ap_vec_reg_16_20 ∷ [])
    ∷ rule vmulesh 0xfc0007ff 0x10000348 0x0
        (ap_vec_reg_6_10 ∷ ap_vec_reg_11_15 ∷ ap_vec_reg_16_20 ∷ [])
    ∷ rule vmuleuh 0xfc0007ff 0x10000248 0x0
        (ap_vec_reg_6_10 ∷ ap_vec_reg_11_15 ∷ ap_vec_reg_16_20 ∷ [])
    ∷ rule vmulosh 0xfc0007ff 0x10000148 0x0
        (ap_vec_reg_6_10 ∷ ap_vec_reg_11_15 ∷ ap_vec_reg_16_20 ∷ [])
    ∷ rule vmulouh 0xfc0007ff 0x10000048 0x0
        (ap_vec_reg_6_10 ∷ ap_vec_reg_11_15 ∷ ap_vec_reg_16_20 ∷ [])
    ∷ rule vmulesw 0xfc0007ff 0x10000388 0x0
        (ap_vec_reg_6_10 ∷ ap_vec_reg_11_15 ∷ ap_vec_reg_16_20 ∷ [])
    ∷ rule vmuleuw 0xfc0007ff 0x10000288 0x0
        (ap_vec_reg_6_10 ∷ ap_vec_reg_11_15 ∷ ap_vec_reg_16_20 ∷ [])
    ∷ rule vmulosw 0xfc0007ff 0x10000188 0x0
        (ap_vec_reg_6_10 ∷ ap_vec_reg_11_15 ∷ ap_vec_reg_16_20 ∷ [])
    ∷ rule vmulouw 0xfc0007ff 0x10000088 0x0
        (ap_vec_reg_6_10 ∷ ap_vec_reg_11_15 ∷ ap_vec_reg_16_20 ∷ [])
    ∷ rule vmuluwm 0xfc0007ff 0x10000089 0x0
        (ap_vec_reg_6_10 ∷ ap_vec_reg_11_15 ∷ ap_vec_reg_16_20 ∷ [])
    ∷ rule vmhaddshs 0xfc00003f 0x10000020 0x0
        (ap_vec_reg_6_10 ∷ ap_vec_reg_11_15 ∷ ap_vec_reg_16_20 ∷ ap_vec_reg_21_25 ∷ [])
    ∷ rule vmhraddshs 0xfc00003f 0x10000021 0x0
        (ap_vec_reg_6_10 ∷ ap_vec_reg_11_15 ∷ ap_vec_reg_16_20 ∷ ap_vec_reg_21_25 ∷ [])
    ∷ rule vmladduhm 0xfc00003f 0x10000022 0x0
        (ap_vec_reg_6_10 ∷ ap_vec_reg_11_15 ∷ ap_vec_reg_16_20 ∷ ap_vec_reg_21_25 ∷ [])
    ∷ rule vmsumubm 0xfc00003f 0x10000024 0x0
        (ap_vec_reg_6_10 ∷ ap_vec_reg_11_15 ∷ ap_vec_reg_16_20 ∷ ap_vec_reg_21_25 ∷ [])
    ∷ rule vmsummbm 0xfc00003f 0x10000025 0x0
        (ap_vec_reg_6_10 ∷ ap_vec_reg_11_15 ∷ ap_vec_reg_16_20 ∷ ap_vec_reg_21_25 ∷ [])
    ∷ rule vmsumshm 0xfc00003f 0x10000028 0x0
        (ap_vec_reg_6_10 ∷ ap_vec_reg_11_15 ∷ ap_vec_reg_16_20 ∷ ap_vec_reg_21_25 ∷ [])
    ∷ rule vmsumshs 0xfc00003f 0x10000029 0x0
        (ap_vec_reg_6_10 ∷ ap_vec_reg_11_15 ∷ ap_vec_reg_16_20 ∷ ap_vec_reg_21_25 ∷ [])
    ∷ rule vmsumuhm 0xfc00003f 0x10000026 0x0
        (ap_vec_reg_6_10 ∷ ap_vec_reg_11_15 ∷ ap_vec_reg_16_20 ∷ ap_vec_reg_21_25 ∷ [])
    ∷ rule vmsumuhs 0xfc00003f 0x10000027 0x0
        (ap_vec_reg_6_10 ∷ ap_vec_reg_11_15 ∷ ap_vec_reg_16_20 ∷ ap_vec_reg_21_25 ∷ [])
    ∷ rule vsumsws 0xfc0007ff 0x10000788 0x0
        (ap_vec_reg_6_10 ∷ ap_vec_reg_11_15 ∷ ap_vec_reg_16_20 ∷ [])
    ∷ rule vsum2sws 0xfc0007ff 0x10000688 0x0
        (ap_vec_reg_6_10 ∷ ap_vec_reg_11_15 ∷ ap_vec_reg_16_20 ∷ [])
    ∷ rule vsum4sbs 0xfc0007ff 0x10000708 0x0
        (ap_vec_reg_6_10 ∷ ap_vec_reg_11_15 ∷ ap_vec_reg_16_20 ∷ [])
    ∷ rule vsum4shs 0xfc0007ff 0x10000648 0x0
        (ap_vec_reg_6_10 ∷ ap_vec_reg_11_15 ∷ ap_vec_reg_16_20 ∷ [])
    ∷ rule vsum4ubs 0xfc0007ff 0x10000608 0x0
        (ap_vec_reg_6_10 ∷ ap_vec_reg_11_15 ∷ ap_vec_reg_16_20 ∷ [])
    ∷ rule vavgsb 0xfc0007ff 0x10000502 0x0
        (ap_vec_reg_6_10 ∷ ap_vec_reg_11_15 ∷ ap_vec_reg_16_20 ∷ [])
    ∷ []

-- ===== src/Asm/Formats/Part16.antt =====
-- power64asm/tables.go: the rules of instFormats from LWARX to TLBSYNC.
use mathlib.Core.List.{List, [], ◌∷◌}
use power.Asm.InstFormat.{InstFormat, rule}
use power.Asm.Fields.{
  ap_reg_6_10, ap_reg_11_15, ap_reg_16_20, ap_imm_unsigned_31_31, ap_imm_unsigned_9_10,
  ap_imm_unsigned_12_15, ap_imm_unsigned_6_10, ap_imm_unsigned_10_10, ap_imm_unsigned_6_6,
  ap_imm_signed_16_20, ap_cond_reg_field_6_8, ap_sp_reg_16_20_11_15, ap_imm_unsigned_20_20,
  ap_fp_reg_6_10, ap_imm_unsigned_20_26, ap_imm_unsigned_15_15, ap_imm_unsigned_8_10,
  ap_sp_reg_12_15,
}
use power.Asm.Op.Part00.{sc}
use power.Asm.Op.Part02.{mtspr, mfspr}
use power.Asm.Op.Part12.{
  lwarx, stbcx_, sthcx_, stwcx_, ldarx, stdcx_, lqarx, stqcx_, sync, eieio, mbar, wait, tbegin_,
  tend_, tabort_, tabortwc_, tabortwci_, tabortdc_, tabortdci_, tsr_, tcheck, mftb, rfebb, lbdx,
  lhdx, lwdx, lddx, lfddx, stbdx, sthdx, stwdx, stddx, stfddx, dsn, eciwx, ecowx, rfid, hrfid, doze,
  nap,
}
use power.Asm.Op.Part13.{
  sleep, rvwinkle, lbzcix, lwzcix, lhzcix, ldcix, stbcix, stwcix, sthcix, stdcix, treclaim_,
  trechkpt_, mtmsr, mtmsrd, mfmsr, slbie, slbia, slbmte, slbmfev, slbmfee, slbfee_, mtsr, mtsrin,
  mfsr, mfsrin, tlbie, tlbiel, tlbia, tlbsync,
}

unfoldable pub formats16 : List InstFormat
formats16 =
    rule lwarx 0xfc0007ff 0x7c000028 0x0 (ap_reg_6_10 ∷ ap_reg_11_15 ∷ ap_reg_16_20 ∷ [])
    ∷ rule lwarx 0xfc0007fe 0x7c000028 0x0
        (ap_reg_6_10 ∷ ap_reg_11_15 ∷ ap_reg_16_20 ∷ ap_imm_unsigned_31_31 ∷ [])
    ∷ rule stbcx_ 0xfc0007ff 0x7c00056d 0x0 (ap_reg_6_10 ∷ ap_reg_11_15 ∷ ap_reg_16_20 ∷ [])
    ∷ rule sthcx_ 0xfc0007ff 0x7c0005ad 0x0 (ap_reg_6_10 ∷ ap_reg_11_15 ∷ ap_reg_16_20 ∷ [])
    ∷ rule stwcx_ 0xfc0007ff 0x7c00012d 0x0 (ap_reg_6_10 ∷ ap_reg_11_15 ∷ ap_reg_16_20 ∷ [])
    ∷ rule ldarx 0xfc0007ff 0x7c0000a8 0x0 (ap_reg_6_10 ∷ ap_reg_11_15 ∷ ap_reg_16_20 ∷ [])
    ∷ rule ldarx 0xfc0007fe 0x7c0000a8 0x0
        (ap_reg_6_10 ∷ ap_reg_11_15 ∷ ap_reg_16_20 ∷ ap_imm_unsigned_31_31 ∷ [])
    ∷ rule stdcx_ 0xfc0007ff 0x7c0001ad 0x0 (ap_reg_6_10 ∷ ap_reg_11_15 ∷ ap_reg_16_20 ∷ [])
    ∷ rule lqarx 0xfc0007ff 0x7c000228 0x0 (ap_reg_6_10 ∷ ap_reg_11_15 ∷ ap_reg_16_20 ∷ [])
    ∷ rule lqarx 0xfc0007fe 0x7c000228 0x0
        (ap_reg_6_10 ∷ ap_reg_11_15 ∷ ap_reg_16_20 ∷ ap_imm_unsigned_31_31 ∷ [])
    ∷ rule stqcx_ 0xfc0007ff 0x7c00016d 0x0 (ap_reg_6_10 ∷ ap_reg_11_15 ∷ ap_reg_16_20 ∷ [])
    ∷ rule sync 0xfc0007fe 0x7c0004ac 0x390f801 (ap_imm_unsigned_9_10 ∷ ap_imm_unsigned_12_15 ∷ [])
    ∷ rule eieio 0xfc0007fe 0x7c0006ac 0x3fff801 ([])
    ∷ rule mbar 0xfc0007fe 0x7c0006ac 0x1ff801 (ap_imm_unsigned_6_10 ∷ [])
    ∷ rule wait 0xfc0007fe 0x7c00007c 0x39ff801 (ap_imm_unsigned_9_10 ∷ [])
    ∷ rule tbegin_ 0xfc0007ff 0x7c00051d 0x1dff800 (ap_imm_unsigned_10_10 ∷ [])
    ∷ rule tend_ 0xfc0007ff 0x7c00055d 0x1fff800 (ap_imm_unsigned_6_6 ∷ [])
    ∷ rule tabort_ 0xfc0007ff 0x7c00071d 0x3e0f800 (ap_reg_11_15 ∷ [])
    ∷ rule tabortwc_ 0xfc0007ff 0x7c00061d 0x0
        (ap_imm_unsigned_6_10 ∷ ap_reg_11_15 ∷ ap_reg_16_20 ∷ [])
    ∷ rule tabortwci_ 0xfc0007ff 0x7c00069d 0x0
        (ap_imm_unsigned_6_10 ∷ ap_reg_11_15 ∷ ap_imm_signed_16_20 ∷ [])
    ∷ rule tabortdc_ 0xfc0007ff 0x7c00065d 0x0
        (ap_imm_unsigned_6_10 ∷ ap_reg_11_15 ∷ ap_reg_16_20 ∷ [])
    ∷ rule tabortdci_ 0xfc0007ff 0x7c0006dd 0x0
        (ap_imm_unsigned_6_10 ∷ ap_reg_11_15 ∷ ap_imm_signed_16_20 ∷ [])
    ∷ rule tsr_ 0xfc0007ff 0x7c0005dd 0x3dff800 (ap_imm_unsigned_10_10 ∷ [])
    ∷ rule tcheck 0xfc0007fe 0x7c00059c 0x7ff801 (ap_cond_reg_field_6_8 ∷ [])
    ∷ rule mftb 0xfc0007fe 0x7c0002e6 0x1 (ap_reg_6_10 ∷ ap_sp_reg_16_20_11_15 ∷ [])
    ∷ rule rfebb 0xfc0007fe 0x4c000124 0x3fff001 (ap_imm_unsigned_20_20 ∷ [])
    ∷ rule lbdx 0xfc0007fe 0x7c000406 0x1 (ap_reg_6_10 ∷ ap_reg_11_15 ∷ ap_reg_16_20 ∷ [])
    ∷ rule lhdx 0xfc0007fe 0x7c000446 0x1 (ap_reg_6_10 ∷ ap_reg_11_15 ∷ ap_reg_16_20 ∷ [])
    ∷ rule lwdx 0xfc0007fe 0x7c000486 0x1 (ap_reg_6_10 ∷ ap_reg_11_15 ∷ ap_reg_16_20 ∷ [])
    ∷ rule lddx 0xfc0007fe 0x7c0004c6 0x1 (ap_reg_6_10 ∷ ap_reg_11_15 ∷ ap_reg_16_20 ∷ [])
    ∷ rule lfddx 0xfc0007fe 0x7c000646 0x1 (ap_fp_reg_6_10 ∷ ap_reg_11_15 ∷ ap_reg_16_20 ∷ [])
    ∷ rule stbdx 0xfc0007fe 0x7c000506 0x1 (ap_reg_6_10 ∷ ap_reg_11_15 ∷ ap_reg_16_20 ∷ [])
    ∷ rule sthdx 0xfc0007fe 0x7c000546 0x1 (ap_reg_6_10 ∷ ap_reg_11_15 ∷ ap_reg_16_20 ∷ [])
    ∷ rule stwdx 0xfc0007fe 0x7c000586 0x1 (ap_reg_6_10 ∷ ap_reg_11_15 ∷ ap_reg_16_20 ∷ [])
    ∷ rule stddx 0xfc0007fe 0x7c0005c6 0x1 (ap_reg_6_10 ∷ ap_reg_11_15 ∷ ap_reg_16_20 ∷ [])
    ∷ rule stfddx 0xfc0007fe 0x7c000746 0x1 (ap_fp_reg_6_10 ∷ ap_reg_11_15 ∷ ap_reg_16_20 ∷ [])
    ∷ rule dsn 0xfc0007fe 0x7c0003c6 0x3e00001 (ap_reg_11_15 ∷ ap_reg_16_20 ∷ [])
    ∷ rule eciwx 0xfc0007fe 0x7c00026c 0x1 (ap_reg_6_10 ∷ ap_reg_11_15 ∷ ap_reg_16_20 ∷ [])
    ∷ rule ecowx 0xfc0007fe 0x7c00036c 0x1 (ap_reg_6_10 ∷ ap_reg_11_15 ∷ ap_reg_16_20 ∷ [])
    ∷ rule sc 0xfc000002 0x44000002 0x3fff01d (ap_imm_unsigned_20_26 ∷ [])
    ∷ rule rfid 0xfc0007fe 0x4c000024 0x3fff801 ([])
    ∷ rule hrfid 0xfc0007fe 0x4c000224 0x3fff801 ([])
    ∷ rule doze 0xfc0007fe 0x4c000324 0x3fff801 ([])
    ∷ rule nap 0xfc0007fe 0x4c000364 0x3fff801 ([])
    ∷ rule sleep 0xfc0007fe 0x4c0003a4 0x3fff801 ([])
    ∷ rule rvwinkle 0xfc0007fe 0x4c0003e4 0x3fff801 ([])
    ∷ rule lbzcix 0xfc0007fe 0x7c0006aa 0x1 (ap_reg_6_10 ∷ ap_reg_11_15 ∷ ap_reg_16_20 ∷ [])
    ∷ rule lwzcix 0xfc0007fe 0x7c00062a 0x1 (ap_reg_6_10 ∷ ap_reg_11_15 ∷ ap_reg_16_20 ∷ [])
    ∷ rule lhzcix 0xfc0007fe 0x7c00066a 0x1 (ap_reg_6_10 ∷ ap_reg_11_15 ∷ ap_reg_16_20 ∷ [])
    ∷ rule ldcix 0xfc0007fe 0x7c0006ea 0x1 (ap_reg_6_10 ∷ ap_reg_11_15 ∷ ap_reg_16_20 ∷ [])
    ∷ rule stbcix 0xfc0007fe 0x7c0007aa 0x1 (ap_reg_6_10 ∷ ap_reg_11_15 ∷ ap_reg_16_20 ∷ [])
    ∷ rule stwcix 0xfc0007fe 0x7c00072a 0x1 (ap_reg_6_10 ∷ ap_reg_11_15 ∷ ap_reg_16_20 ∷ [])
    ∷ rule sthcix 0xfc0007fe 0x7c00076a 0x1 (ap_reg_6_10 ∷ ap_reg_11_15 ∷ ap_reg_16_20 ∷ [])
    ∷ rule stdcix 0xfc0007fe 0x7c0007ea 0x1 (ap_reg_6_10 ∷ ap_reg_11_15 ∷ ap_reg_16_20 ∷ [])
    ∷ rule treclaim_ 0xfc0007ff 0x7c00075d 0x3e0f800 (ap_reg_11_15 ∷ [])
    ∷ rule trechkpt_ 0xfc0007ff 0x7c0007dd 0x3fff800 ([])
    ∷ rule mtspr 0xfc0007fe 0x7c0003a6 0x1 (ap_sp_reg_16_20_11_15 ∷ ap_reg_6_10 ∷ [])
    ∷ rule mfspr 0xfc0007fe 0x7c0002a6 0x1 (ap_reg_6_10 ∷ ap_sp_reg_16_20_11_15 ∷ [])
    ∷ rule mtmsr 0xfc0007fe 0x7c000124 0x1ef801 (ap_reg_6_10 ∷ ap_imm_unsigned_15_15 ∷ [])
    ∷ rule mtmsrd 0xfc0007fe 0x7c000164 0x1ef801 (ap_reg_6_10 ∷ ap_imm_unsigned_15_15 ∷ [])
    ∷ rule mfmsr 0xfc0007fe 0x7c0000a6 0x1ff801 (ap_reg_6_10 ∷ [])
    ∷ rule slbie 0xfc0007fe 0x7c000364 0x3ff0001 (ap_reg_16_20 ∷ [])
    ∷ rule slbia 0xfc0007fe 0x7c0003e4 0x31ff801 (ap_imm_unsigned_8_10 ∷ [])
    ∷ rule slbmte 0xfc0007fe 0x7c000324 0x1f0001 (ap_reg_6_10 ∷ ap_reg_16_20 ∷ [])
    ∷ rule slbmfev 0xfc0007fe 0x7c0006a6 0x1f0001 (ap_reg_6_10 ∷ ap_reg_16_20 ∷ [])
    ∷ rule slbmfee 0xfc0007fe 0x7c000726 0x1f0001 (ap_reg_6_10 ∷ ap_reg_16_20 ∷ [])
    ∷ rule slbfee_ 0xfc0007ff 0x7c0007a7 0x1f0000 (ap_reg_6_10 ∷ ap_reg_16_20 ∷ [])
    ∷ rule mtsr 0xfc0007fe 0x7c0001a4 0x10f801 (ap_sp_reg_12_15 ∷ ap_reg_6_10 ∷ [])
    ∷ rule mtsrin 0xfc0007fe 0x7c0001e4 0x1f0001 (ap_reg_6_10 ∷ ap_reg_16_20 ∷ [])
    ∷ rule mfsr 0xfc0007fe 0x7c0004a6 0x10f801 (ap_reg_6_10 ∷ ap_sp_reg_12_15 ∷ [])
    ∷ rule mfsrin 0xfc0007fe 0x7c000526 0x1f0001 (ap_reg_6_10 ∷ ap_reg_16_20 ∷ [])
    ∷ rule tlbie 0xfc0007fe 0x7c000264 0x1f0001 (ap_reg_16_20 ∷ ap_reg_6_10 ∷ [])
    ∷ rule tlbiel 0xfc0007fe 0x7c000224 0x3ff0001 (ap_reg_16_20 ∷ [])
    ∷ rule tlbia 0xfc0007fe 0x7c0002e4 0x3fff801 ([])
    ∷ rule tlbsync 0xfc0007fe 0x7c00046c 0x3fff801 ([])
    ∷ []

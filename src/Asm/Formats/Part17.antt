-- ===== src/Asm/Formats/Part17.antt =====
-- power64asm/tables.go: the rules of instFormats from MSGSND to MTPMR.
use mathlib.Core.List.{List, [], ◌∷◌}
use power.Asm.InstFormat.{InstFormat, rule}
use power.Asm.Fields.{
  ap_reg_16_20, ap_sp_reg_16_20_11_15, ap_reg_6_10, ap_imm_unsigned_6_20, ap_reg_11_15,
  ap_imm_unsigned_16_16, ap_imm_unsigned_6_10, ap_imm_unsigned_9_10, ap_fp_reg_6_10,
  ap_vec_reg_6_10, ap_imm_unsigned_7_10, ap_imm_unsigned_11_20, ap_sp_reg_11_20,
}
use power.Asm.Op.Part00.{sc}
use power.Asm.Op.Part02.{mtspr, mfspr}
use power.Asm.Op.Part13.{
  msgsnd, msgclr, msgsndp, msgclrp, mttmr, rfi, rfci, rfdi, rfmci, rfgi, ehpriv, mtdcr, mtdcrx,
  mfdcr, mfdcrx, mtmsr, mfmsr, wrtee, wrteei, lbepx, lhepx, lwepx, ldepx, stbepx, sthepx, stwepx,
  stdepx, dcbstep, dcbtep, dcbfep, dcbtstep, icbiep, dcbzep, lfdepx, stfdepx, evlddepx, evstddepx,
  lvepx, lvepxl, stvepx, stvepxl, dcbi, dcblq_, icblq_, dcbtls, dcbtstls, icbtls, icblc, dcblc,
  tlbivax, tlbilx, tlbsx, tlbsrx_, tlbre, tlbsync, tlbwe, dnh, dci, ici, dcread, icread, mfpmr,
  mtpmr,
}

unfoldable pub formats17 : List InstFormat
formats17 =
    rule msgsnd 0xfc0007fe 0x7c00019c 0x3ff0001 (ap_reg_16_20 ∷ [])
    ∷ rule msgclr 0xfc0007fe 0x7c0001dc 0x3ff0001 (ap_reg_16_20 ∷ [])
    ∷ rule msgsndp 0xfc0007fe 0x7c00011c 0x3ff0001 (ap_reg_16_20 ∷ [])
    ∷ rule msgclrp 0xfc0007fe 0x7c00015c 0x3ff0001 (ap_reg_16_20 ∷ [])
    ∷ rule mttmr 0xfc0007fe 0x7c0003dc 0x1 (ap_sp_reg_16_20_11_15 ∷ ap_reg_6_10 ∷ [])
    ∷ rule sc 0xfc000002 0x44000002 0x3fffffd ([])
    ∷ rule rfi 0xfc0007fe 0x4c000064 0x3fff801 ([])
    ∷ rule rfci 0xfc0007fe 0x4c000066 0x3fff801 ([])
    ∷ rule rfdi 0xfc0007fe 0x4c00004e 0x3fff801 ([])
    ∷ rule rfmci 0xfc0007fe 0x4c00004c 0x3fff801 ([])
    ∷ rule rfgi 0xfc0007fe 0x4c0000cc 0x3fff801 ([])
    ∷ rule ehpriv 0xfc0007fe 0x7c00021c 0x1 (ap_imm_unsigned_6_20 ∷ [])
    ∷ rule mtspr 0xfc0007fe 0x7c0003a6 0x1 (ap_sp_reg_16_20_11_15 ∷ ap_reg_6_10 ∷ [])
    ∷ rule mfspr 0xfc0007fe 0x7c0002a6 0x1 (ap_reg_6_10 ∷ ap_sp_reg_16_20_11_15 ∷ [])
    ∷ rule mtdcr 0xfc0007fe 0x7c000386 0x1 (ap_sp_reg_16_20_11_15 ∷ ap_reg_6_10 ∷ [])
    ∷ rule mtdcrx 0xfc0007fe 0x7c000306 0xf801 (ap_reg_11_15 ∷ ap_reg_6_10 ∷ [])
    ∷ rule mfdcr 0xfc0007fe 0x7c000286 0x1 (ap_reg_6_10 ∷ ap_sp_reg_16_20_11_15 ∷ [])
    ∷ rule mfdcrx 0xfc0007fe 0x7c000206 0xf801 (ap_reg_6_10 ∷ ap_reg_11_15 ∷ [])
    ∷ rule mtmsr 0xfc0007fe 0x7c000124 0x1ff801 (ap_reg_6_10 ∷ [])
    ∷ rule mfmsr 0xfc0007fe 0x7c0000a6 0x1ff801 (ap_reg_6_10 ∷ [])
    ∷ rule wrtee 0xfc0007fe 0x7c000106 0x1ff801 (ap_reg_6_10 ∷ [])
    ∷ rule wrteei 0xfc0007fe 0x7c000146 0x3ff7801 (ap_imm_unsigned_16_16 ∷ [])
    ∷ rule lbepx 0xfc0007fe 0x7c0000be 0x1 (ap_reg_6_10 ∷ ap_reg_11_15 ∷ ap_reg_16_20 ∷ [])
    ∷ rule lhepx 0xfc0007fe 0x7c00023e 0x1 (ap_reg_6_10 ∷ ap_reg_11_15 ∷ ap_reg_16_20 ∷ [])
    ∷ rule lwepx 0xfc0007fe 0x7c00003e 0x1 (ap_reg_6_10 ∷ ap_reg_11_15 ∷ ap_reg_16_20 ∷ [])
    ∷ rule ldepx 0xfc0007fe 0x7c00003a 0x1 (ap_reg_6_10 ∷ ap_reg_11_15 ∷ ap_reg_16_20 ∷ [])
    ∷ rule stbepx 0xfc0007fe 0x7c0001be 0x1 (ap_reg_6_10 ∷ ap_reg_11_15 ∷ ap_reg_16_20 ∷ [])
    ∷ rule sthepx 0xfc0007fe 0x7c00033e 0x1 (ap_reg_6_10 ∷ ap_reg_11_15 ∷ ap_reg_16_20 ∷ [])
    ∷ rule stwepx 0xfc0007fe 0x7c00013e 0x1 (ap_reg_6_10 ∷ ap_reg_11_15 ∷ ap_reg_16_20 ∷ [])
    ∷ rule stdepx 0xfc0007fe 0x7c00013a 0x1 (ap_reg_6_10 ∷ ap_reg_11_15 ∷ ap_reg_16_20 ∷ [])
    ∷ rule dcbstep 0xfc0007fe 0x7c00007e 0x3e00001 (ap_reg_11_15 ∷ ap_reg_16_20 ∷ [])
    ∷ rule dcbtep 0xfc0007fe 0x7c00027e 0x1
        (ap_imm_unsigned_6_10 ∷ ap_reg_11_15 ∷ ap_reg_16_20 ∷ [])
    ∷ rule dcbfep 0xfc0007fe 0x7c0000fe 0x3800001
        (ap_reg_11_15 ∷ ap_reg_16_20 ∷ ap_imm_unsigned_9_10 ∷ [])
    ∷ rule dcbtstep 0xfc0007fe 0x7c0001fe 0x1
        (ap_imm_unsigned_6_10 ∷ ap_reg_11_15 ∷ ap_reg_16_20 ∷ [])
    ∷ rule icbiep 0xfc0007fe 0x7c0007be 0x3e00001 (ap_reg_11_15 ∷ ap_reg_16_20 ∷ [])
    ∷ rule dcbzep 0xfc0007fe 0x7c0007fe 0x3e00001 (ap_reg_11_15 ∷ ap_reg_16_20 ∷ [])
    ∷ rule lfdepx 0xfc0007fe 0x7c0004be 0x1 (ap_fp_reg_6_10 ∷ ap_reg_11_15 ∷ ap_reg_16_20 ∷ [])
    ∷ rule stfdepx 0xfc0007fe 0x7c0005be 0x1 (ap_fp_reg_6_10 ∷ ap_reg_11_15 ∷ ap_reg_16_20 ∷ [])
    ∷ rule evlddepx 0xfc0007fe 0x7c00063e 0x1 (ap_reg_6_10 ∷ ap_reg_11_15 ∷ ap_reg_16_20 ∷ [])
    ∷ rule evstddepx 0xfc0007fe 0x7c00073e 0x1 (ap_reg_6_10 ∷ ap_reg_11_15 ∷ ap_reg_16_20 ∷ [])
    ∷ rule lvepx 0xfc0007fe 0x7c00024e 0x1 (ap_vec_reg_6_10 ∷ ap_reg_11_15 ∷ ap_reg_16_20 ∷ [])
    ∷ rule lvepxl 0xfc0007fe 0x7c00020e 0x1 (ap_vec_reg_6_10 ∷ ap_reg_11_15 ∷ ap_reg_16_20 ∷ [])
    ∷ rule stvepx 0xfc0007fe 0x7c00064e 0x1 (ap_vec_reg_6_10 ∷ ap_reg_11_15 ∷ ap_reg_16_20 ∷ [])
    ∷ rule stvepxl 0xfc0007fe 0x7c00060e 0x1 (ap_vec_reg_6_10 ∷ ap_reg_11_15 ∷ ap_reg_16_20 ∷ [])
    ∷ rule dcbi 0xfc0007fe 0x7c0003ac 0x3e00001 (ap_reg_11_15 ∷ ap_reg_16_20 ∷ [])
    ∷ rule dcblq_ 0xfc0007ff 0x7c00034d 0x2000000
        (ap_imm_unsigned_7_10 ∷ ap_reg_11_15 ∷ ap_reg_16_20 ∷ [])
    ∷ rule icblq_ 0xfc0007ff 0x7c00018d 0x2000000
        (ap_imm_unsigned_7_10 ∷ ap_reg_11_15 ∷ ap_reg_16_20 ∷ [])
    ∷ rule dcbtls 0xfc0007fe 0x7c00014c 0x2000001
        (ap_imm_unsigned_7_10 ∷ ap_reg_11_15 ∷ ap_reg_16_20 ∷ [])
    ∷ rule dcbtstls 0xfc0007fe 0x7c00010c 0x2000001
        (ap_imm_unsigned_7_10 ∷ ap_reg_11_15 ∷ ap_reg_16_20 ∷ [])
    ∷ rule icbtls 0xfc0007fe 0x7c0003cc 0x2000001
        (ap_imm_unsigned_7_10 ∷ ap_reg_11_15 ∷ ap_reg_16_20 ∷ [])
    ∷ rule icblc 0xfc0007fe 0x7c0001cc 0x2000001
        (ap_imm_unsigned_7_10 ∷ ap_reg_11_15 ∷ ap_reg_16_20 ∷ [])
    ∷ rule dcblc 0xfc0007fe 0x7c00030c 0x2000001
        (ap_imm_unsigned_7_10 ∷ ap_reg_11_15 ∷ ap_reg_16_20 ∷ [])
    ∷ rule tlbivax 0xfc0007fe 0x7c000624 0x3e00001 (ap_reg_11_15 ∷ ap_reg_16_20 ∷ [])
    ∷ rule tlbilx 0xfc0007fe 0x7c000024 0x3800001 (ap_reg_11_15 ∷ ap_reg_16_20 ∷ [])
    ∷ rule tlbsx 0xfc0007fe 0x7c000724 0x3e00001 (ap_reg_11_15 ∷ ap_reg_16_20 ∷ [])
    ∷ rule tlbsrx_ 0xfc0007ff 0x7c0006a5 0x3e00000 (ap_reg_11_15 ∷ ap_reg_16_20 ∷ [])
    ∷ rule tlbre 0xfc0007fe 0x7c000764 0x3fff801 ([])
    ∷ rule tlbsync 0xfc0007fe 0x7c00046c 0x3fff801 ([])
    ∷ rule tlbwe 0xfc0007fe 0x7c0007a4 0x3fff801 ([])
    ∷ rule dnh 0xfc0007fe 0x4c00018c 0x1 (ap_imm_unsigned_6_10 ∷ ap_imm_unsigned_11_20 ∷ [])
    ∷ rule msgsnd 0xfc0007fe 0x7c00019c 0x3ff0001 (ap_reg_16_20 ∷ [])
    ∷ rule msgclr 0xfc0007fe 0x7c0001dc 0x3ff0001 (ap_reg_16_20 ∷ [])
    ∷ rule dci 0xfc0007fe 0x7c00038c 0x21ff801 (ap_imm_unsigned_7_10 ∷ [])
    ∷ rule ici 0xfc0007fe 0x7c00078c 0x21ff801 (ap_imm_unsigned_7_10 ∷ [])
    ∷ rule dcread 0xfc0007fe 0x7c0003cc 0x1 (ap_reg_6_10 ∷ ap_reg_11_15 ∷ ap_reg_16_20 ∷ [])
    ∷ rule icread 0xfc0007fe 0x7c0007cc 0x3e00001 (ap_reg_11_15 ∷ ap_reg_16_20 ∷ [])
    ∷ rule mfpmr 0xfc0007fe 0x7c00029c 0x1 (ap_reg_6_10 ∷ ap_sp_reg_11_20 ∷ [])
    ∷ rule mtpmr 0xfc0007fe 0x7c00039c 0x1 (ap_sp_reg_11_20 ∷ ap_reg_6_10 ∷ [])
    ∷ []

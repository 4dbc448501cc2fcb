-- ===== src/Asm/Formats/Part04.antt =====
-- power64asm/tables.go: the rules of instFormats from STFDUX to FCTIW.
use mathlib.Core.List.{List, [], ◌∷◌}
use power.Asm.InstFormat.{InstFormat, rule}
use power.Asm.Fields.{
  ap_fp_reg_6_10, ap_reg_11_15, ap_reg_16_20, ap_offset_16_29_shift2, ap_fp_reg_16_20,
  ap_fp_reg_11_15, ap_fp_reg_21_25, ap_cond_reg_field_6_8,
}
use power.Asm.Op.Part03.{
  stfdux, stfiwx, lfdp, lfdpx, stfdp, stfdpx, fmr, fmr_, fabs, fabs_, fnabs, fnabs_, fneg, fneg_,
  fcpsgn, fcpsgn_, fmrgew, fmrgow, fadd, fadd_, fadds, fadds_, fsub, fsub_, fsubs, fsubs_, fmul,
  fmul_, fmuls, fmuls_, fdiv, fdiv_, fdivs, fdivs_, fsqrt, fsqrt_, fsqrts, fsqrts_, fre, fre_, fres,
  fres_, frsqrte, frsqrte_, frsqrtes, frsqrtes_, ftdiv, ftsqrt, fmadd, fmadd_, fmadds, fmadds_,
  fmsub, fmsub_, fmsubs, fmsubs_, fnmadd, fnmadd_, fnmadds, fnmadds_, fnmsub, fnmsub_, fnmsubs,
  fnmsubs_, frsp, frsp_, fctid, fctid_, fctidz, fctidz_, fctidu, fctidu_, fctiduz, fctiduz_, fctiw,
}

unfoldable pub formats04 : List InstFormat
formats04 =
    rule stfdux 0xfc0007fe 0x7c0005ee 0x1 (ap_fp_reg_6_10 ∷ ap_reg_11_15 ∷ ap_reg_16_20 ∷ [])
    ∷ rule stfiwx 0xfc0007fe 0x7c0007ae 0x1 (ap_fp_reg_6_10 ∷ ap_reg_11_15 ∷ ap_reg_16_20 ∷ [])
    ∷ rule lfdp 0xfc000003 0xe4000000 0x0
        (ap_fp_reg_6_10 ∷ ap_offset_16_29_shift2 ∷ ap_reg_11_15 ∷ [])
    ∷ rule lfdpx 0xfc0007fe 0x7c00062e 0x1 (ap_fp_reg_6_10 ∷ ap_reg_11_15 ∷ ap_reg_16_20 ∷ [])
    ∷ rule stfdp 0xfc000003 0xf4000000 0x0
        (ap_fp_reg_6_10 ∷ ap_offset_16_29_shift2 ∷ ap_reg_11_15 ∷ [])
    ∷ rule stfdpx 0xfc0007fe 0x7c00072e 0x1 (ap_fp_reg_6_10 ∷ ap_reg_11_15 ∷ ap_reg_16_20 ∷ [])
    ∷ rule fmr 0xfc0007ff 0xfc000090 0x1f0000 (ap_fp_reg_6_10 ∷ ap_fp_reg_16_20 ∷ [])
    ∷ rule fmr_ 0xfc0007ff 0xfc000091 0x1f0000 (ap_fp_reg_6_10 ∷ ap_fp_reg_16_20 ∷ [])
    ∷ rule fabs 0xfc0007ff 0xfc000210 0x1f0000 (ap_fp_reg_6_10 ∷ ap_fp_reg_16_20 ∷ [])
    ∷ rule fabs_ 0xfc0007ff 0xfc000211 0x1f0000 (ap_fp_reg_6_10 ∷ ap_fp_reg_16_20 ∷ [])
    ∷ rule fnabs 0xfc0007ff 0xfc000110 0x1f0000 (ap_fp_reg_6_10 ∷ ap_fp_reg_16_20 ∷ [])
    ∷ rule fnabs_ 0xfc0007ff 0xfc000111 0x1f0000 (ap_fp_reg_6_10 ∷ ap_fp_reg_16_20 ∷ [])
    ∷ rule fneg 0xfc0007ff 0xfc000050 0x1f0000 (ap_fp_reg_6_10 ∷ ap_fp_reg_16_20 ∷ [])
    ∷ rule fneg_ 0xfc0007ff 0xfc000051 0x1f0000 (ap_fp_reg_6_10 ∷ ap_fp_reg_16_20 ∷ [])
    ∷ rule fcpsgn 0xfc0007ff 0xfc000010 0x0
        (ap_fp_reg_6_10 ∷ ap_fp_reg_11_15 ∷ ap_fp_reg_16_20 ∷ [])
    ∷ rule fcpsgn_ 0xfc0007ff 0xfc000011 0x0
        (ap_fp_reg_6_10 ∷ ap_fp_reg_11_15 ∷ ap_fp_reg_16_20 ∷ [])
    ∷ rule fmrgew 0xfc0007fe 0xfc00078c 0x1
        (ap_fp_reg_6_10 ∷ ap_fp_reg_11_15 ∷ ap_fp_reg_16_20 ∷ [])
    ∷ rule fmrgow 0xfc0007fe 0xfc00068c 0x1
        (ap_fp_reg_6_10 ∷ ap_fp_reg_11_15 ∷ ap_fp_reg_16_20 ∷ [])
    ∷ rule fadd 0xfc00003f 0xfc00002a 0x7c0
        (ap_fp_reg_6_10 ∷ ap_fp_reg_11_15 ∷ ap_fp_reg_16_20 ∷ [])
    ∷ rule fadd_ 0xfc00003f 0xfc00002b 0x7c0
        (ap_fp_reg_6_10 ∷ ap_fp_reg_11_15 ∷ ap_fp_reg_16_20 ∷ [])
    ∷ rule fadds 0xfc00003f 0xec00002a 0x7c0
        (ap_fp_reg_6_10 ∷ ap_fp_reg_11_15 ∷ ap_fp_reg_16_20 ∷ [])
    ∷ rule fadds_ 0xfc00003f 0xec00002b 0x7c0
        (ap_fp_reg_6_10 ∷ ap_fp_reg_11_15 ∷ ap_fp_reg_16_20 ∷ [])
    ∷ rule fsub 0xfc00003f 0xfc000028 0x7c0
        (ap_fp_reg_6_10 ∷ ap_fp_reg_11_15 ∷ ap_fp_reg_16_20 ∷ [])
    ∷ rule fsub_ 0xfc00003f 0xfc000029 0x7c0
        (ap_fp_reg_6_10 ∷ ap_fp_reg_11_15 ∷ ap_fp_reg_16_20 ∷ [])
    ∷ rule fsubs 0xfc00003f 0xec000028 0x7c0
        (ap_fp_reg_6_10 ∷ ap_fp_reg_11_15 ∷ ap_fp_reg_16_20 ∷ [])
    ∷ rule fsubs_ 0xfc00003f 0xec000029 0x7c0
        (ap_fp_reg_6_10 ∷ ap_fp_reg_11_15 ∷ ap_fp_reg_16_20 ∷ [])
    ∷ rule fmul 0xfc00003f 0xfc000032 0xf800
        (ap_fp_reg_6_10 ∷ ap_fp_reg_11_15 ∷ ap_fp_reg_21_25 ∷ [])
    ∷ rule fmul_ 0xfc00003f 0xfc000033 0xf800
        (ap_fp_reg_6_10 ∷ ap_fp_reg_11_15 ∷ ap_fp_reg_21_25 ∷ [])
    ∷ rule fmuls 0xfc00003f 0xec000032 0xf800
        (ap_fp_reg_6_10 ∷ ap_fp_reg_11_15 ∷ ap_fp_reg_21_25 ∷ [])
    ∷ rule fmuls_ 0xfc00003f 0xec000033 0xf800
        (ap_fp_reg_6_10 ∷ ap_fp_reg_11_15 ∷ ap_fp_reg_21_25 ∷ [])
    ∷ rule fdiv 0xfc00003f 0xfc000024 0x7c0
        (ap_fp_reg_6_10 ∷ ap_fp_reg_11_15 ∷ ap_fp_reg_16_20 ∷ [])
    ∷ rule fdiv_ 0xfc00003f 0xfc000025 0x7c0
        (ap_fp_reg_6_10 ∷ ap_fp_reg_11_15 ∷ ap_fp_reg_16_20 ∷ [])
    ∷ rule fdivs 0xfc00003f 0xec000024 0x7c0
        (ap_fp_reg_6_10 ∷ ap_fp_reg_11_15 ∷ ap_fp_reg_16_20 ∷ [])
    ∷ rule fdivs_ 0xfc00003f 0xec000025 0x7c0
        (ap_fp_reg_6_10 ∷ ap_fp_reg_11_15 ∷ ap_fp_reg_16_20 ∷ [])
    ∷ rule fsqrt 0xfc00003f 0xfc00002c 0x1f07c0 (ap_fp_reg_6_10 ∷ ap_fp_reg_16_20 ∷ [])
    ∷ rule fsqrt_ 0xfc00003f 0xfc00002d 0x1f07c0 (ap_fp_reg_6_10 ∷ ap_fp_reg_16_20 ∷ [])
    ∷ rule fsqrts 0xfc00003f 0xec00002c 0x1f07c0 (ap_fp_reg_6_10 ∷ ap_fp_reg_16_20 ∷ [])
    ∷ rule fsqrts_ 0xfc00003f 0xec00002d 0x1f07c0 (ap_fp_reg_6_10 ∷ ap_fp_reg_16_20 ∷ [])
    ∷ rule fre 0xfc00003f 0xfc000030 0x1f07c0 (ap_fp_reg_6_10 ∷ ap_fp_reg_16_20 ∷ [])
    ∷ rule fre_ 0xfc00003f 0xfc000031 0x1f07c0 (ap_fp_reg_6_10 ∷ ap_fp_reg_16_20 ∷ [])
    ∷ rule fres 0xfc00003f 0xec000030 0x1f07c0 (ap_fp_reg_6_10 ∷ ap_fp_reg_16_20 ∷ [])
    ∷ rule fres_ 0xfc00003f 0xec000031 0x1f07c0 (ap_fp_reg_6_10 ∷ ap_fp_reg_16_20 ∷ [])
    ∷ rule frsqrte 0xfc00003f 0xfc000034 0x1f07c0 (ap_fp_reg_6_10 ∷ ap_fp_reg_16_20 ∷ [])
    ∷ rule frsqrte_ 0xfc00003f 0xfc000035 0x1f07c0 (ap_fp_reg_6_10 ∷ ap_fp_reg_16_20 ∷ [])
    ∷ rule frsqrtes 0xfc00003f 0xec000034 0x1f07c0 (ap_fp_reg_6_10 ∷ ap_fp_reg_16_20 ∷ [])
    ∷ rule frsqrtes_ 0xfc00003f 0xec000035 0x1f07c0 (ap_fp_reg_6_10 ∷ ap_fp_reg_16_20 ∷ [])
    ∷ rule ftdiv 0xfc0007fe 0xfc000100 0x600001
        (ap_cond_reg_field_6_8 ∷ ap_fp_reg_11_15 ∷ ap_fp_reg_16_20 ∷ [])
    ∷ rule ftsqrt 0xfc0007fe 0xfc000140 0x7f0001 (ap_cond_reg_field_6_8 ∷ ap_fp_reg_16_20 ∷ [])
    ∷ rule fmadd 0xfc00003f 0xfc00003a 0x0
        (ap_fp_reg_6_10 ∷ ap_fp_reg_11_15 ∷ ap_fp_reg_21_25 ∷ ap_fp_reg_16_20 ∷ [])
    ∷ rule fmadd_ 0xfc00003f 0xfc00003b 0x0
        (ap_fp_reg_6_10 ∷ ap_fp_reg_11_15 ∷ ap_fp_reg_21_25 ∷ ap_fp_reg_16_20 ∷ [])
    ∷ rule fmadds 0xfc00003f 0xec00003a 0x0
        (ap_fp_reg_6_10 ∷ ap_fp_reg_11_15 ∷ ap_fp_reg_21_25 ∷ ap_fp_reg_16_20 ∷ [])
    ∷ rule fmadds_ 0xfc00003f 0xec00003b 0x0
        (ap_fp_reg_6_10 ∷ ap_fp_reg_11_15 ∷ ap_fp_reg_21_25 ∷ ap_fp_reg_16_20 ∷ [])
    ∷ rule fmsub 0xfc00003f 0xfc000038 0x0
        (ap_fp_reg_6_10 ∷ ap_fp_reg_11_15 ∷ ap_fp_reg_21_25 ∷ ap_fp_reg_16_20 ∷ [])
    ∷ rule fmsub_ 0xfc00003f 0xfc000039 0x0
        (ap_fp_reg_6_10 ∷ ap_fp_reg_11_15 ∷ ap_fp_reg_21_25 ∷ ap_fp_reg_16_20 ∷ [])
    ∷ rule fmsubs 0xfc00003f 0xec000038 0x0
        (ap_fp_reg_6_10 ∷ ap_fp_reg_11_15 ∷ ap_fp_reg_21_25 ∷ ap_fp_reg_16_20 ∷ [])
    ∷ rule fmsubs_ 0xfc00003f 0xec000039 0x0
        (ap_fp_reg_6_10 ∷ ap_fp_reg_11_15 ∷ ap_fp_reg_21_25 ∷ ap_fp_reg_16_20 ∷ [])
    ∷ rule fnmadd 0xfc00003f 0xfc00003e 0x0
        (ap_fp_reg_6_10 ∷ ap_fp_reg_11_15 ∷ ap_fp_reg_21_25 ∷ ap_fp_reg_16_20 ∷ [])
    ∷ rule fnmadd_ 0xfc00003f 0xfc00003f 0x0
        (ap_fp_reg_6_10 ∷ ap_fp_reg_11_15 ∷ ap_fp_reg_21_25 ∷ ap_fp_reg_16_20 ∷ [])
    ∷ rule fnmadds 0xfc00003f 0xec00003e 0x0
        (ap_fp_reg_6_10 ∷ ap_fp_reg_11_15 ∷ ap_fp_reg_21_25 ∷ ap_fp_reg_16_20 ∷ [])
    ∷ rule fnmadds_ 0xfc00003f 0xec00003f 0x0
        (ap_fp_reg_6_10 ∷ ap_fp_reg_11_15 ∷ ap_fp_reg_21_25 ∷ ap_fp_reg_16_20 ∷ [])
    ∷ rule fnmsub 0xfc00003f 0xfc00003c 0x0
        (ap_fp_reg_6_10 ∷ ap_fp_reg_11_15 ∷ ap_fp_reg_21_25 ∷ ap_fp_reg_16_20 ∷ [])
    ∷ rule fnmsub_ 0xfc00003f 0xfc00003d 0x0
        (ap_fp_reg_6_10 ∷ ap_fp_reg_11_15 ∷ ap_fp_reg_21_25 ∷ ap_fp_reg_16_20 ∷ [])
    ∷ rule fnmsubs 0xfc00003f 0xec00003c 0x0
        (ap_fp_reg_6_10 ∷ ap_fp_reg_11_15 ∷ ap_fp_reg_21_25 ∷ ap_fp_reg_16_20 ∷ [])
    ∷ rule fnmsubs_ 0xfc00003f 0xec00003d 0x0
        (ap_fp_reg_6_10 ∷ ap_fp_reg_11_15 ∷ ap_fp_reg_21_25 ∷ ap_fp_reg_16_20 ∷ [])
    ∷ rule frsp 0xfc0007ff 0xfc000018 0x1f0000 (ap_fp_reg_6_10 ∷ ap_fp_reg_16_20 ∷ [])
    ∷ rule frsp_ 0xfc0007ff 0xfc000019 0x1f0000 (ap_fp_reg_6_10 ∷ ap_fp_reg_16_20 ∷ [])
    ∷ rule fctid 0xfc0007ff 0xfc00065c 0x1f0000 (ap_fp_reg_6_10 ∷ ap_fp_reg_16_20 ∷ [])
    ∷ rule fctid_ 0xfc0007ff 0xfc00065d 0x1f0000 (ap_fp_reg_6_10 ∷ ap_fp_reg_16_20 ∷ [])
    ∷ rule fctidz 0xfc0007ff 0xfc00065e 0x1f0000 (ap_fp_reg_6_10 ∷ ap_fp_reg_16_20 ∷ [])
    ∷ rule fctidz_ 0xfc0007ff 0xfc00065f 0x1f0000 (ap_fp_reg_6_10 ∷ ap_fp_reg_16_20 ∷ [])
    ∷ rule fctidu 0xfc0007ff 0xfc00075c 0x1f0000 (ap_fp_reg_6_10 ∷ ap_fp_reg_16_20 ∷ [])
    ∷ rule fctidu_ 0xfc0007ff 0xfc00075d 0x1f0000 (ap_fp_reg_6_10 ∷ ap_fp_reg_16_20 ∷ [])
    ∷ rule fctiduz 0xfc0007ff 0xfc00075e 0x1f0000 (ap_fp_reg_6_10 ∷ ap_fp_reg_16_20 ∷ [])
    ∷ rule fctiduz_ 0xfc0007ff 0xfc00075f 0x1f0000 (ap_fp_reg_6_10 ∷ ap_fp_reg_16_20 ∷ [])
    ∷ rule fctiw 0xfc0007ff 0xfc00001c 0x1f0000 (ap_fp_reg_6_10 ∷ ap_fp_reg_16_20 ∷ [])
    ∷ []

-- ===== src/Asm/Opstr/Part03.antt =====
-- power64asm/tables.go: the entries of opstr from LFSX to FCTIWU_.
use Prim.Native.Nat.{ℕ}
use Prim.Native.String.{String}
use mathlib.Core.List.{List, [], ◌∷◌}
use power.Asm.Op.Part03.{
  lfsx, lfsux, lfd, lfdu, lfdx, lfdux, lfiwax, lfiwzx, stfs, stfsu, stfsx, stfsux, stfd, stfdu,
  stfdx, stfdux, stfiwx, lfdp, lfdpx, stfdp, stfdpx, fmr, fmr_, fabs, fabs_, fnabs, fnabs_, fneg,
  fneg_, fcpsgn, fcpsgn_, fmrgew, fmrgow, fadd, fadd_, fadds, fadds_, fsub, fsub_, fsubs, fsubs_,
  fmul, fmul_, fmuls, fmuls_, fdiv, fdiv_, fdivs, fdivs_, fsqrt, fsqrt_, fsqrts, fsqrts_, fre, fre_,
  fres, fres_, frsqrte, frsqrte_, frsqrtes, frsqrtes_, ftdiv, ftsqrt, fmadd, fmadd_, fmadds,
  fmadds_, fmsub, fmsub_, fmsubs, fmsubs_, fnmadd, fnmadd_, fnmadds, fnmadds_, fnmsub, fnmsub_,
  fnmsubs, fnmsubs_, frsp, frsp_, fctid, fctid_, fctidz, fctidz_, fctidu, fctidu_, fctiduz,
  fctiduz_, fctiw, fctiw_, fctiwz, fctiwz_, fctiwu, fctiwu_,
}

unfoldable pub opstr03 : List (ℕ × String)
opstr03 =
    (lfsx, "lfsx")
    ∷ (lfsux, "lfsux")
    ∷ (lfd, "lfd")
    ∷ (lfdu, "lfdu")
    ∷ (lfdx, "lfdx")
    ∷ (lfdux, "lfdux")
    ∷ (lfiwax, "lfiwax")
    ∷ (lfiwzx, "lfiwzx")
    ∷ (stfs, "stfs")
    ∷ (stfsu, "stfsu")
    ∷ (stfsx, "stfsx")
    ∷ (stfsux, "stfsux")
    ∷ (stfd, "stfd")
    ∷ (stfdu, "stfdu")
    ∷ (stfdx, "stfdx")
    ∷ (stfdux, "stfdux")
    ∷ (stfiwx, "stfiwx")
    ∷ (lfdp, "lfdp")
    ∷ (lfdpx, "lfdpx")
    ∷ (stfdp, "stfdp")
    ∷ (stfdpx, "stfdpx")
    ∷ (fmr, "fmr")
    ∷ (fmr_, "fmr.")
    ∷ (fabs, "fabs")
    ∷ (fabs_, "fabs.")
    ∷ (fnabs, "fnabs")
    ∷ (fnabs_, "fnabs.")
    ∷ (fneg, "fneg")
    ∷ (fneg_, "fneg.")
    ∷ (fcpsgn, "fcpsgn")
    ∷ (fcpsgn_, "fcpsgn.")
    ∷ (fmrgew, "fmrgew")
    ∷ (fmrgow, "fmrgow")
    ∷ (fadd, "fadd")
    ∷ (fadd_, "fadd.")
    ∷ (fadds, "fadds")
    ∷ (fadds_, "fadds.")
    ∷ (fsub, "fsub")
    ∷ (fsub_, "fsub.")
    ∷ (fsubs, "fsubs")
    ∷ (fsubs_, "fsubs.")
    ∷ (fmul, "fmul")
    ∷ (fmul_, "fmul.")
    ∷ (fmuls, "fmuls")
    ∷ (fmuls_, "fmuls.")
    ∷ (fdiv, "fdiv")
    ∷ (fdiv_, "fdiv.")
    ∷ (fdivs, "fdivs")
    ∷ (fdivs_, "fdivs.")
    ∷ (fsqrt, "fsqrt")
    ∷ (fsqrt_, "fsqrt.")
    ∷ (fsqrts, "fsqrts")
    ∷ (fsqrts_, "fsqrts.")
    ∷ (fre, "fre")
    ∷ (fre_, "fre.")
    ∷ (fres, "fres")
    ∷ (fres_, "fres.")
    ∷ (frsqrte, "frsqrte")
    ∷ (frsqrte_, "frsqrte.")
    ∷ (frsqrtes, "frsqrtes")
    ∷ (frsqrtes_, "frsqrtes.")
    ∷ (ftdiv, "ftdiv")
    ∷ (ftsqrt, "ftsqrt")
    ∷ (fmadd, "fmadd")
    ∷ (fmadd_, "fmadd.")
    ∷ (fmadds, "fmadds")
    ∷ (fmadds_, "fmadds.")
    ∷ (fmsub, "fmsub")
    ∷ (fmsub_, "fmsub.")
    ∷ (fmsubs, "fmsubs")
    ∷ (fmsubs_, "fmsubs.")
    ∷ (fnmadd, "fnmadd")
    ∷ (fnmadd_, "fnmadd.")
    ∷ (fnmadds, "fnmadds")
    ∷ (fnmadds_, "fnmadds.")
    ∷ (fnmsub, "fnmsub")
    ∷ (fnmsub_, "fnmsub.")
    ∷ (fnmsubs, "fnmsubs")
    ∷ (fnmsubs_, "fnmsubs.")
    ∷ (frsp, "frsp")
    ∷ (frsp_, "frsp.")
    ∷ (fctid, "fctid")
    ∷ (fctid_, "fctid.")
    ∷ (fctidz, "fctidz")
    ∷ (fctidz_, "fctidz.")
    ∷ (fctidu, "fctidu")
    ∷ (fctidu_, "fctidu.")
    ∷ (fctiduz, "fctiduz")
    ∷ (fctiduz_, "fctiduz.")
    ∷ (fctiw, "fctiw")
    ∷ (fctiw_, "fctiw.")
    ∷ (fctiwz, "fctiwz")
    ∷ (fctiwz_, "fctiwz.")
    ∷ (fctiwu, "fctiwu")
    ∷ (fctiwu_, "fctiwu.")
    ∷ []

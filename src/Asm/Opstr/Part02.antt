-- ===== src/Asm/Opstr/Part02.antt =====
-- power64asm/tables.go: the entries of opstr from TW to LFSU.
use Prim.Native.Nat.{ℕ}
use Prim.Native.String.{String}
use mathlib.Core.List.{List, [], ◌∷◌}
use power.Asm.Op.Part02.{
  tw, tdi, isel, td, andi_, andis_, ori, oris, xori, xoris, and, and_, xor, xor_, nand, nand_, or,
  or_, nor, nor_, andc, andc_, extsb, extsb_, eqv, eqv_, orc, orc_, extsh, extsh_, cmpb, popcntb,
  popcntw, prtyd, prtyw, extsw, extsw_, cntlzd, cntlzd_, popcntd, bpermd, rlwinm, rlwinm_, rlwnm,
  rlwnm_, rlwimi, rlwimi_, rldicl, rldicl_, rldicr, rldicr_, rldic, rldic_, rldcl, rldcl_, rldcr,
  rldcr_, rldimi, rldimi_, slw, slw_, srw, srw_, srawi, srawi_, sraw, sraw_, sld, sld_, srd, srd_,
  sradi, sradi_, srad, srad_, cdtbcd, cbcdtd, addg6s, mtspr, mfspr, mtcrf, mfcr, mtsle, mfvsrd,
  mfvsrwz, mtvsrd, mtvsrwa, mtvsrwz, mtocrf, mfocrf, mcrxr, mtdcrux, mfdcrux, lfs, lfsu,
}

unfoldable pub opstr02 : List (ℕ × String)
opstr02 =
    (tw, "tw")
    ∷ (tdi, "tdi")
    ∷ (isel, "isel")
    ∷ (td, "td")
    ∷ (andi_, "andi.")
    ∷ (andis_, "andis.")
    ∷ (ori, "ori")
    ∷ (oris, "oris")
    ∷ (xori, "xori")
    ∷ (xoris, "xoris")
    ∷ (and, "and")
    ∷ (and_, "and.")
    ∷ (xor, "xor")
    ∷ (xor_, "xor.")
    ∷ (nand, "nand")
    ∷ (nand_, "nand.")
    ∷ (or, "or")
    ∷ (or_, "or.")
    ∷ (nor, "nor")
    ∷ (nor_, "nor.")
    ∷ (andc, "andc")
    ∷ (andc_, "andc.")
    ∷ (extsb, "extsb")
    ∷ (extsb_, "extsb.")
    ∷ (eqv, "eqv")
    ∷ (eqv_, "eqv.")
    ∷ (orc, "orc")
    ∷ (orc_, "orc.")
    ∷ (extsh, "extsh")
    ∷ (extsh_, "extsh.")
    ∷ (cmpb, "cmpb")
    ∷ (popcntb, "popcntb")
    ∷ (popcntw, "popcntw")
    ∷ (prtyd, "prtyd")
    ∷ (prtyw, "prtyw")
    ∷ (extsw, "extsw")
    ∷ (extsw_, "extsw.")
    ∷ (cntlzd, "cntlzd")
    ∷ (cntlzd_, "cntlzd.")
    ∷ (popcntd, "popcntd")
    ∷ (bpermd, "bpermd")
    ∷ (rlwinm, "rlwinm")
    ∷ (rlwinm_, "rlwinm.")
    ∷ (rlwnm, "rlwnm")
    ∷ (rlwnm_, "rlwnm.")
    ∷ (rlwimi, "rlwimi")
    ∷ (rlwimi_, "rlwimi.")
    ∷ (rldicl, "rldicl")
    ∷ (rldicl_, "rldicl.")
    ∷ (rldicr, "rldicr")
    ∷ (rldicr_, "rldicr.")
    ∷ (rldic, "rldic")
    ∷ (rldic_, "rldic.")
    ∷ (rldcl, "rldcl")
    ∷ (rldcl_, "rldcl.")
    ∷ (rldcr, "rldcr")
    ∷ (rldcr_, "rldcr.")
    ∷ (rldimi, "rldimi")
    ∷ (rldimi_, "rldimi.")
    ∷ (slw, "slw")
    ∷ (slw_, "slw.")
    ∷ (srw, "srw")
    ∷ (srw_, "srw.")
    ∷ (srawi, "srawi")
    ∷ (srawi_, "srawi.")
    ∷ (sraw, "sraw")
    ∷ (sraw_, "sraw.")
    ∷ (sld, "sld")
    ∷ (sld_, "sld.")
    ∷ (srd, "srd")
    ∷ (srd_, "srd.")
    ∷ (sradi, "sradi")
    ∷ (sradi_, "sradi.")
    ∷ (srad, "srad")
    ∷ (srad_, "srad.")
    ∷ (cdtbcd, "cdtbcd")
    ∷ (cbcdtd, "cbcdtd")
    ∷ (addg6s, "addg6s")
    ∷ (mtspr, "mtspr")
    ∷ (mfspr, "mfspr")
    ∷ (mtcrf, "mtcrf")
    ∷ (mfcr, "mfcr")
    ∷ (mtsle, "mtsle")
    ∷ (mfvsrd, "mfvsrd")
    ∷ (mfvsrwz, "mfvsrwz")
    ∷ (mtvsrd, "mtvsrd")
    ∷ (mtvsrwa, "mtvsrwa")
    ∷ (mtvsrwz, "mtvsrwz")
    ∷ (mtocrf, "mtocrf")
    ∷ (mfocrf, "mfocrf")
    ∷ (mcrxr, "mcrxr")
    ∷ (mtdcrux, "mtdcrux")
    ∷ (mfdcrux, "mfdcrux")
    ∷ (lfs, "lfs")
    ∷ (lfsu, "lfsu")
    ∷ []

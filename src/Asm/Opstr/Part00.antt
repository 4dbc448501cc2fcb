-- ===== src/Asm/Opstr/Part00.antt =====
-- power64asm/tables.go: the entries of opstr from CNTLZW to ADDIC_.
use Prim.Native.Nat.{ℕ}
use Prim.Native.String.{String}
use mathlib.Core.List.{List, [], ◌∷◌}
use power.Asm.Op.Part00.{
  cntlzw, cntlzw_, b, ba, bl, bla, bc, bca, bcl, bcla, bclr, bclrl, bcctr, bcctrl, bctar, bctarl,
  crand, cror, crnand, crxor, crnor, crandc, mcrf, creqv, crorc, sc, clrbhrb, mfbhrbe, lbz, lbzu,
  lbzx, lbzux, lhz, lhzu, lhzx, lhzux, lha, lhau, lhax, lhaux, lwz, lwzu, lwzx, lwzux, lwa, lwax,
  lwaux, ld, ldu, ldx, ldux, stb, stbu, stbx, stbux, sth, sthu, sthx, sthux, stw, stwu, stwx, stwux,
  std, stdu, stdx, stdux, lq, stq, lhbrx, lwbrx, sthbrx, stwbrx, ldbrx, stdbrx, lmw, stmw, lswi,
  lswx, stswi, stswx, li, addi, lis, addis, add, add_, addo, addo_, addic, subf, subf_, subfo,
  subfo_, addic_,
}

unfoldable pub opstr00 : List (ℕ × String)
opstr00 =
    (cntlzw, "cntlzw")
    ∷ (cntlzw_, "cntlzw.")
    ∷ (b, "b")
    ∷ (ba, "ba")
    ∷ (bl, "bl")
    ∷ (bla, "bla")
    ∷ (bc, "bc")
    ∷ (bca, "bca")
    ∷ (bcl, "bcl")
    ∷ (bcla, "bcla")
    ∷ (bclr, "bclr")
    ∷ (bclrl, "bclrl")
    ∷ (bcctr, "bcctr")
    ∷ (bcctrl, "bcctrl")
    ∷ (bctar, "bctar")
    ∷ (bctarl, "bctarl")
    ∷ (crand, "crand")
    ∷ (cror, "cror")
    ∷ (crnand, "crnand")
    ∷ (crxor, "crxor")
    ∷ (crnor, "crnor")
    ∷ (crandc, "crandc")
    ∷ (mcrf, "mcrf")
    ∷ (creqv, "creqv")
    ∷ (crorc, "crorc")
    ∷ (sc, "sc")
    ∷ (clrbhrb, "clrbhrb")
    ∷ (mfbhrbe, "mfbhrbe")
    ∷ (lbz, "lbz")
    ∷ (lbzu, "lbzu")
    ∷ (lbzx, "lbzx")
    ∷ (lbzux, "lbzux")
    ∷ (lhz, "lhz")
    ∷ (lhzu, "lhzu")
    ∷ (lhzx, "lhzx")
    ∷ (lhzux, "lhzux")
    ∷ (lha, "lha")
    ∷ (lhau, "lhau")
    ∷ (lhax, "lhax")
    ∷ (lhaux, "lhaux")
    ∷ (lwz, "lwz")
    ∷ (lwzu, "lwzu")
    ∷ (lwzx, "lwzx")
    ∷ (lwzux, "lwzux")
    ∷ (lwa, "lwa")
    ∷ (lwax, "lwax")
    ∷ (lwaux, "lwaux")
    ∷ (ld, "ld")
    ∷ (ldu, "ldu")
    ∷ (ldx, "ldx")
    ∷ (ldux, "ldux")
    ∷ (stb, "stb")
    ∷ (stbu, "stbu")
    ∷ (stbx, "stbx")
    ∷ (stbux, "stbux")
    ∷ (sth, "sth")
    ∷ (sthu, "sthu")
    ∷ (sthx, "sthx")
    ∷ (sthux, "sthux")
    ∷ (stw, "stw")
    ∷ (stwu, "stwu")
    ∷ (stwx, "stwx")
    ∷ (stwux, "stwux")
    ∷ (std, "std")
    ∷ (stdu, "stdu")
    ∷ (stdx, "stdx")
    ∷ (stdux, "stdux")
    ∷ (lq, "lq")
    ∷ (stq, "stq")
    ∷ (lhbrx, "lhbrx")
    ∷ (lwbrx, "lwbrx")
    ∷ (sthbrx, "sthbrx")
    ∷ (stwbrx, "stwbrx")
    ∷ (ldbrx, "ldbrx")
    ∷ (stdbrx, "stdbrx")
    ∷ (lmw, "lmw")
    ∷ (stmw, "stmw")
    ∷ (lswi, "lswi")
    ∷ (lswx, "lswx")
    ∷ (stswi, "stswi")
    ∷ (stswx, "stswx")
    ∷ (li, "li")
    ∷ (addi, "addi")
    ∷ (lis, "lis")
    ∷ (addis, "addis")
    ∷ (add, "add")
    ∷ (add_, "add.")
    ∷ (addo, "addo")
    ∷ (addo_, "addo.")
    ∷ (addic, "addic")
    ∷ (subf, "subf")
    ∷ (subf_, "subf.")
    ∷ (subfo, "subfo")
    ∷ (subfo_, "subfo.")
    ∷ (addic_, "addic.")
    ∷ []

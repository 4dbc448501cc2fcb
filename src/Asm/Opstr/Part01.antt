-- ===== src/Asm/Opstr/Part01.antt =====
-- power64asm/tables.go: the entries of opstr from SUBFIC to TWI.
use Prim.Native.Nat.{ℕ}
use Prim.Native.String.{String}
use mathlib.Core.List.{List, [], ◌∷◌}
use power.Asm.Op.Part01.{
  subfic, addc, addc_, addco, addco_, subfc, subfc_, subfco, subfco_, adde, adde_, addeo, addeo_,
  addme, addme_, addmeo, addmeo_, subfe, subfe_, subfeo, subfeo_, subfme, subfme_, subfmeo,
  subfmeo_, addze, addze_, addzeo, addzeo_, subfze, subfze_, subfzeo, subfzeo_, neg, neg_, nego,
  nego_, mulli, mullw, mullw_, mullwo, mullwo_, mulhw, mulhw_, mulhwu, mulhwu_, divw, divw_, divwo,
  divwo_, divwu, divwu_, divwuo, divwuo_, divwe, divwe_, divweo, divweo_, divweu, divweu_, divweuo,
  divweuo_, mulld, mulld_, mulldo, mulldo_, mulhdu, mulhdu_, mulhd, mulhd_, divd, divd_, divdo,
  divdo_, divdu, divdu_, divduo, divduo_, divde, divde_, divdeo, divdeo_, divdeu, divdeu_, divdeuo,
  divdeuo_, cmpwi, cmpdi, cmpw, cmpd, cmplwi, cmpldi, cmplw, cmpld, twi,
}

unfoldable pub opstr01 : List (ℕ × String)
opstr01 =
    (subfic, "subfic")
    ∷ (addc, "addc")
    ∷ (addc_, "addc.")
    ∷ (addco, "addco")
    ∷ (addco_, "addco.")
    ∷ (subfc, "subfc")
    ∷ (subfc_, "subfc.")
    ∷ (subfco, "subfco")
    ∷ (subfco_, "subfco.")
    ∷ (adde, "adde")
    ∷ (adde_, "adde.")
    ∷ (addeo, "addeo")
    ∷ (addeo_, "addeo.")
    ∷ (addme, "addme")
    ∷ (addme_, "addme.")
    ∷ (addmeo, "addmeo")
    ∷ (addmeo_, "addmeo.")
    ∷ (subfe, "subfe")
    ∷ (subfe_, "subfe.")
    ∷ (subfeo, "subfeo")
    ∷ (subfeo_, "subfeo.")
    ∷ (subfme, "subfme")
    ∷ (subfme_, "subfme.")
    ∷ (subfmeo, "subfmeo")
    ∷ (subfmeo_, "subfmeo.")
    ∷ (addze, "addze")
    ∷ (addze_, "addze.")
    ∷ (addzeo, "addzeo")
    ∷ (addzeo_, "addzeo.")
    ∷ (subfze, "subfze")
    ∷ (subfze_, "subfze.")
    ∷ (subfzeo, "subfzeo")
    ∷ (subfzeo_, "subfzeo.")
    ∷ (neg, "neg")
    ∷ (neg_, "neg.")
    ∷ (nego, "nego")
    ∷ (nego_, "nego.")
    ∷ (mulli, "mulli")
    ∷ (mullw, "mullw")
    ∷ (mullw_, "mullw.")
    ∷ (mullwo, "mullwo")
    ∷ (mullwo_, "mullwo.")
    ∷ (mulhw, "mulhw")
    ∷ (mulhw_, "mulhw.")
    ∷ (mulhwu, "mulhwu")
    ∷ (mulhwu_, "mulhwu.")
    ∷ (divw, "divw")
    ∷ (divw_, "divw.")
    ∷ (divwo, "divwo")
    ∷ (divwo_, "divwo.")
    ∷ (divwu, "divwu")
    ∷ (divwu_, "divwu.")
    ∷ (divwuo, "divwuo")
    ∷ (divwuo_, "divwuo.")
    ∷ (divwe, "divwe")
    ∷ (divwe_, "divwe.")
    ∷ (divweo, "divweo")
    ∷ (divweo_, "divweo.")
    ∷ (divweu, "divweu")
    ∷ (divweu_, "divweu.")
    ∷ (divweuo, "divweuo")
    ∷ (divweuo_, "divweuo.")
    ∷ (mulld, "mulld")
    ∷ (mulld_, "mulld.")
    ∷ (mulldo, "mulldo")
    ∷ (mulldo_, "mulldo.")
    ∷ (mulhdu, "mulhdu")
    ∷ (mulhdu_, "mulhdu.")
    ∷ (mulhd, "mulhd")
    ∷ (mulhd_, "mulhd.")
    ∷ (divd, "divd")
    ∷ (divd_, "divd.")
    ∷ (divdo, "divdo")
    ∷ (divdo_, "divdo.")
    ∷ (divdu, "divdu")
    ∷ (divdu_, "divdu.")
    ∷ (divduo, "divduo")
    ∷ (divduo_, "divduo.")
    ∷ (divde, "divde")
    ∷ (divde_, "divde.")
    ∷ (divdeo, "divdeo")
    ∷ (divdeo_, "divdeo.")
    ∷ (divdeu, "divdeu")
    ∷ (divdeu_, "divdeu.")
    ∷ (divdeuo, "divdeuo")
    ∷ (divdeuo_, "divdeuo.")
    ∷ (cmpwi, "cmpwi")
    ∷ (cmpdi, "cmpdi")
    ∷ (cmpw, "cmpw")
    ∷ (cmpd, "cmpd")
    ∷ (cmplwi, "cmplwi")
    ∷ (cmpldi, "cmpldi")
    ∷ (cmplw, "cmplw")
    ∷ (cmpld, "cmpld")
    ∷ (twi, "twi")
    ∷ []

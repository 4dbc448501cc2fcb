-- ===== src/Asm/Opstr/Part13.antt =====
-- power64asm/tables.go: the entries of opstr from SLEEP to MTPMR.
use Prim.Native.Nat.{ℕ}
use Prim.Native.String.{String}
use mathlib.Core.List.{List, [], ◌∷◌}
use power.Asm.Op.Part13.{
  sleep, rvwinkle, lbzcix, lwzcix, lhzcix, ldcix, stbcix, stwcix, sthcix, stdcix, treclaim_,
  trechkpt_, mtmsr, mtmsrd, mfmsr, slbie, slbia, slbmte, slbmfev, slbmfee, slbfee_, mtsr, mtsrin,
  mfsr, mfsrin, tlbie, tlbiel, tlbia, tlbsync, msgsnd, msgclr, msgsndp, msgclrp, mttmr, rfi, rfci,
  rfdi, rfmci, rfgi, ehpriv, mtdcr, mtdcrx, mfdcr, mfdcrx, wrtee, wrteei, lbepx, lhepx, lwepx,
  ldepx, stbepx, sthepx, stwepx, stdepx, dcbstep, dcbtep, dcbfep, dcbtstep, icbiep, dcbzep, lfdepx,
  stfdepx, evlddepx, evstddepx, lvepx, lvepxl, stvepx, stvepxl, dcbi, dcblq_, icblq_, dcbtls,
  dcbtstls, icbtls, icblc, dcblc, tlbivax, tlbilx, tlbsx, tlbsrx_, tlbre, tlbwe, dnh, dci, ici,
  dcread, icread, mfpmr, mtpmr,
}

unfoldable pub opstr13 : List (ℕ × String)
opstr13 =
    (sleep, "sleep")
    ∷ (rvwinkle, "rvwinkle")
    ∷ (lbzcix, "lbzcix")
    ∷ (lwzcix, "lwzcix")
    ∷ (lhzcix, "lhzcix")
    ∷ (ldcix, "ldcix")
    ∷ (stbcix, "stbcix")
    ∷ (stwcix, "stwcix")
    ∷ (sthcix, "sthcix")
    ∷ (stdcix, "stdcix")
    ∷ (treclaim_, "treclaim.")
    ∷ (trechkpt_, "trechkpt.")
    ∷ (mtmsr, "mtmsr")
    ∷ (mtmsrd, "mtmsrd")
    ∷ (mfmsr, "mfmsr")
    ∷ (slbie, "slbie")
    ∷ (slbia, "slbia")
    ∷ (slbmte, "slbmte")
    ∷ (slbmfev, "slbmfev")
    ∷ (slbmfee, "slbmfee")
    ∷ (slbfee_, "slbfee.")
    ∷ (mtsr, "mtsr")
    ∷ (mtsrin, "mtsrin")
    ∷ (mfsr, "mfsr")
    ∷ (mfsrin, "mfsrin")
    ∷ (tlbie, "tlbie")
    ∷ (tlbiel, "tlbiel")
    ∷ (tlbia, "tlbia")
    ∷ (tlbsync, "tlbsync")
    ∷ (msgsnd, "msgsnd")
    ∷ (msgclr, "msgclr")
    ∷ (msgsndp, "msgsndp")
    ∷ (msgclrp, "msgclrp")
    ∷ (mttmr, "mttmr")
    ∷ (rfi, "rfi")
    ∷ (rfci, "rfci")
    ∷ (rfdi, "rfdi")
    ∷ (rfmci, "rfmci")
    ∷ (rfgi, "rfgi")
    ∷ (ehpriv, "ehpriv")
    ∷ (mtdcr, "mtdcr")
    ∷ (mtdcrx, "mtdcrx")
    ∷ (mfdcr, "mfdcr")
    ∷ (mfdcrx, "mfdcrx")
    ∷ (wrtee, "wrtee")
    ∷ (wrteei, "wrteei")
    ∷ (lbepx, "lbepx")
    ∷ (lhepx, "lhepx")
    ∷ (lwepx, "lwepx")
    ∷ (ldepx, "ldepx")
    ∷ (stbepx, "stbepx")
    ∷ (sthepx, "sthepx")
    ∷ (stwepx, "stwepx")
    ∷ (stdepx, "stdepx")
    ∷ (dcbstep, "dcbstep")
    ∷ (dcbtep, "dcbtep")
    ∷ (dcbfep, "dcbfep")
    ∷ (dcbtstep, "dcbtstep")
    ∷ (icbiep, "icbiep")
    ∷ (dcbzep, "dcbzep")
    ∷ (lfdepx, "lfdepx")
    ∷ (stfdepx, "stfdepx")
    ∷ (evlddepx, "evlddepx")
    ∷ (evstddepx, "evstddepx")
    ∷ (lvepx, "lvepx")
    ∷ (lvepxl, "lvepxl")
    ∷ (stvepx, "stvepx")
    ∷ (stvepxl, "stvepxl")
    ∷ (dcbi, "dcbi")
    ∷ (dcblq_, "dcblq.")
    ∷ (icblq_, "icblq.")
    ∷ (dcbtls, "dcbtls")
    ∷ (dcbtstls, "dcbtstls")
    ∷ (icbtls, "icbtls")
    ∷ (icblc, "icblc")
    ∷ (dcblc, "dcblc")
    ∷ (tlbivax, "tlbivax")
    ∷ (tlbilx, "tlbilx")
    ∷ (tlbsx, "tlbsx")
    ∷ (tlbsrx_, "tlbsrx.")
    ∷ (tlbre, "tlbre")
    ∷ (tlbwe, "tlbwe")
    ∷ (dnh, "dnh")
    ∷ (dci, "dci")
    ∷ (ici, "ici")
    ∷ (dcread, "dcread")
    ∷ (icread, "icread")
    ∷ (mfpmr, "mfpmr")
    ∷ (mtpmr, "mtpmr")
    ∷ []

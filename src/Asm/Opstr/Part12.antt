-- ===== src/Asm/Opstr/Part12.antt =====
-- power64asm/tables.go: the entries of opstr from MACLHWU to NAP.
use Prim.Native.Nat.{ℕ}
use Prim.Native.String.{String}
use mathlib.Core.List.{List, [], ◌∷◌}
use power.Asm.Op.Part12.{
  maclhwu, maclhwu_, maclhwuo, maclhwuo_, mulchw, mulchw_, maclhwsu, maclhwsu_, maclhwsuo,
  maclhwsuo_, mulchwu, mulchwu_, mulhhw, mulhhw_, mullhw, mullhw_, mulhhwu, mulhhwu_, mullhwu,
  mullhwu_, nmacchw, nmacchw_, nmacchwo, nmacchwo_, nmacchws, nmacchws_, nmacchwso, nmacchwso_,
  nmachhw, nmachhw_, nmachhwo, nmachhwo_, nmachhws, nmachhws_, nmachhwso, nmachhwso_, nmaclhw,
  nmaclhw_, nmaclhwo, nmaclhwo_, nmaclhws, nmaclhws_, nmaclhwso, nmaclhwso_, icbi, icbt, dcba, dcbt,
  dcbtst, dcbz, dcbst, dcbf, isync, lbarx, lharx, lwarx, stbcx_, sthcx_, stwcx_, ldarx, stdcx_,
  lqarx, stqcx_, sync, eieio, mbar, wait, tbegin_, tend_, tabort_, tabortwc_, tabortwci_, tabortdc_,
  tabortdci_, tsr_, tcheck, mftb, rfebb, lbdx, lhdx, lwdx, lddx, lfddx, stbdx, sthdx, stwdx, stddx,
  stfddx, dsn, eciwx, ecowx, rfid, hrfid, doze, nap,
}

unfoldable pub opstr12 : List (ℕ × String)
opstr12 =
    (maclhwu, "maclhwu")
    ∷ (maclhwu_, "maclhwu.")
    ∷ (maclhwuo, "maclhwuo")
    ∷ (maclhwuo_, "maclhwuo.")
    ∷ (mulchw, "mulchw")
    ∷ (mulchw_, "mulchw.")
    ∷ (maclhwsu, "maclhwsu")
    ∷ (maclhwsu_, "maclhwsu.")
    ∷ (maclhwsuo, "maclhwsuo")
    ∷ (maclhwsuo_, "maclhwsuo.")
    ∷ (mulchwu, "mulchwu")
    ∷ (mulchwu_, "mulchwu.")
    ∷ (mulhhw, "mulhhw")
    ∷ (mulhhw_, "mulhhw.")
    ∷ (mullhw, "mullhw")
    ∷ (mullhw_, "mullhw.")
    ∷ (mulhhwu, "mulhhwu")
    ∷ (mulhhwu_, "mulhhwu.")
    ∷ (mullhwu, "mullhwu")
    ∷ (mullhwu_, "mullhwu.")
    ∷ (nmacchw, "nmacchw")
    ∷ (nmacchw_, "nmacchw.")
    ∷ (nmacchwo, "nmacchwo")
    ∷ (nmacchwo_, "nmacchwo.")
    ∷ (nmacchws, "nmacchws")
    ∷ (nmacchws_, "nmacchws.")
    ∷ (nmacchwso, "nmacchwso")
    ∷ (nmacchwso_, "nmacchwso.")
    ∷ (nmachhw, "nmachhw")
    ∷ (nmachhw_, "nmachhw.")
    ∷ (nmachhwo, "nmachhwo")
    ∷ (nmachhwo_, "nmachhwo.")
    ∷ (nmachhws, "nmachhws")
    ∷ (nmachhws_, "nmachhws.")
    ∷ (nmachhwso, "nmachhwso")
    ∷ (nmachhwso_, "nmachhwso.")
    ∷ (nmaclhw, "nmaclhw")
    ∷ (nmaclhw_, "nmaclhw.")
    ∷ (nmaclhwo, "nmaclhwo")
    ∷ (nmaclhwo_, "nmaclhwo.")
    ∷ (nmaclhws, "nmaclhws")
    ∷ (nmaclhws_, "nmaclhws.")
    ∷ (nmaclhwso, "nmaclhwso")
    ∷ (nmaclhwso_, "nmaclhwso.")
    ∷ (icbi, "icbi")
    ∷ (icbt, "icbt")
    ∷ (dcba, "dcba")
    ∷ (dcbt, "dcbt")
    ∷ (dcbtst, "dcbtst")
    ∷ (dcbz, "dcbz")
    ∷ (dcbst, "dcbst")
    ∷ (dcbf, "dcbf")
    ∷ (isync, "isync")
    ∷ (lbarx, "lbarx")
    ∷ (lharx, "lharx")
    ∷ (lwarx, "lwarx")
    ∷ (stbcx_, "stbcx.")
    ∷ (sthcx_, "sthcx.")
    ∷ (stwcx_, "stwcx.")
    ∷ (ldarx, "ldarx")
    ∷ (stdcx_, "stdcx.")
    ∷ (lqarx, "lqarx")
    ∷ (stqcx_, "stqcx.")
    ∷ (sync, "sync")
    ∷ (eieio, "eieio")
    ∷ (mbar, "mbar")
    ∷ (wait, "wait")
    ∷ (tbegin_, "tbegin.")
    ∷ (tend_, "tend.")
    ∷ (tabort_, "tabort.")
    ∷ (tabortwc_, "tabortwc.")
    ∷ (tabortwci_, "tabortwci.")
    ∷ (tabortdc_, "tabortdc.")
    ∷ (tabortdci_, "tabortdci.")
    ∷ (tsr_, "tsr.")
    ∷ (tcheck, "tcheck")
    ∷ (mftb, "mftb")
    ∷ (rfebb, "rfebb")
    ∷ (lbdx, "lbdx")
    ∷ (lhdx, "lhdx")
    ∷ (lwdx, "lwdx")
    ∷ (lddx, "lddx")
    ∷ (lfddx, "lfddx")
    ∷ (stbdx, "stbdx")
    ∷ (sthdx, "sthdx")
    ∷ (stwdx, "stwdx")
    ∷ (stddx, "stddx")
    ∷ (stfddx, "stfddx")
    ∷ (dsn, "dsn")
    ∷ (eciwx, "eciwx")
    ∷ (ecowx, "ecowx")
    ∷ (rfid, "rfid")
    ∷ (hrfid, "hrfid")
    ∷ (doze, "doze")
    ∷ (nap, "nap")
    ∷ []

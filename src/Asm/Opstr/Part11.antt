-- ===== src/Asm/Opstr/Part11.antt =====
-- power64asm/tables.go: the entries of opstr from EVFSCTUF to MACLHWSO_.
use Prim.Native.Nat.{ℕ}
use Prim.Native.String.{String}
use mathlib.Core.List.{List, [], ◌∷◌}
use power.Asm.Op.Part11.{
  evfsctuf, efsabs, efsneg, efsnabs, efsadd, efsmul, efssub, efsdiv, efscmpgt, efscmplt, efscmpeq,
  efststgt, efststlt, efststeq, efscfsi, efscfsf, efsctsi, efscfui, efscfuf, efsctui, efsctsiz,
  efsctsf, efsctuiz, efsctuf, efdabs, efdneg, efdnabs, efdadd, efdmul, efdsub, efddiv, efdcmpgt,
  efdcmpeq, efdcmplt, efdtstgt, efdtstlt, efdcfsi, efdtsteq, efdcfui, efdcfsid, efdcfsf, efdcfuf,
  efdcfuid, efdctsi, efdctui, efdctsidz, efdctuidz, efdctsiz, efdctsf, efdctuf, efdctuiz, efdcfs,
  efscfd, dlmzb, dlmzb_, macchw, macchw_, macchwo, macchwo_, macchws, macchws_, macchwso, macchwso_,
  macchwu, macchwu_, macchwuo, macchwuo_, macchwsu, macchwsu_, macchwsuo, macchwsuo_, machhw,
  machhw_, machhwo, machhwo_, machhws, machhws_, machhwso, machhwso_, machhwu, machhwu_, machhwuo,
  machhwuo_, machhwsu, machhwsu_, machhwsuo, machhwsuo_, maclhw, maclhw_, maclhwo, maclhwo_,
  maclhws, maclhws_, maclhwso, maclhwso_,
}

unfoldable pub opstr11 : List (ℕ × String)
opstr11 =
    (evfsctuf, "evfsctuf")
    ∷ (efsabs, "efsabs")
    ∷ (efsneg, "efsneg")
    ∷ (efsnabs, "efsnabs")
    ∷ (efsadd, "efsadd")
    ∷ (efsmul, "efsmul")
    ∷ (efssub, "efssub")
    ∷ (efsdiv, "efsdiv")
    ∷ (efscmpgt, "efscmpgt")
    ∷ (efscmplt, "efscmplt")
    ∷ (efscmpeq, "efscmpeq")
    ∷ (efststgt, "efststgt")
    ∷ (efststlt, "efststlt")
    ∷ (efststeq, "efststeq")
    ∷ (efscfsi, "efscfsi")
    ∷ (efscfsf, "efscfsf")
    ∷ (efsctsi, "efsctsi")
    ∷ (efscfui, "efscfui")
    ∷ (efscfuf, "efscfuf")
    ∷ (efsctui, "efsctui")
    ∷ (efsctsiz, "efsctsiz")
    ∷ (efsctsf, "efsctsf")
    ∷ (efsctuiz, "efsctuiz")
    ∷ (efsctuf, "efsctuf")
    ∷ (efdabs, "efdabs")
    ∷ (efdneg, "efdneg")
    ∷ (efdnabs, "efdnabs")
    ∷ (efdadd, "efdadd")
    ∷ (efdmul, "efdmul")
    ∷ (efdsub, "efdsub")
    ∷ (efddiv, "efddiv")
    ∷ (efdcmpgt, "efdcmpgt")
    ∷ (efdcmpeq, "efdcmpeq")
    ∷ (efdcmplt, "efdcmplt")
    ∷ (efdtstgt, "efdtstgt")
    ∷ (efdtstlt, "efdtstlt")
    ∷ (efdcfsi, "efdcfsi")
    ∷ (efdtsteq, "efdtsteq")
    ∷ (efdcfui, "efdcfui")
    ∷ (efdcfsid, "efdcfsid")
    ∷ (efdcfsf, "efdcfsf")
    ∷ (efdcfuf, "efdcfuf")
    ∷ (efdcfuid, "efdcfuid")
    ∷ (efdctsi, "efdctsi")
    ∷ (efdctui, "efdctui")
    ∷ (efdctsidz, "efdctsidz")
    ∷ (efdctuidz, "efdctuidz")
    ∷ (efdctsiz, "efdctsiz")
    ∷ (efdctsf, "efdctsf")
    ∷ (efdctuf, "efdctuf")
    ∷ (efdctuiz, "efdctuiz")
    ∷ (efdcfs, "efdcfs")
    ∷ (efscfd, "efscfd")
    ∷ (dlmzb, "dlmzb")
    ∷ (dlmzb_, "dlmzb.")
    ∷ (macchw, "macchw")
    ∷ (macchw_, "macchw.")
    ∷ (macchwo, "macchwo")
    ∷ (macchwo_, "macchwo.")
    ∷ (macchws, "macchws")
    ∷ (macchws_, "macchws.")
    ∷ (macchwso, "macchwso")
    ∷ (macchwso_, "macchwso.")
    ∷ (macchwu, "macchwu")
    ∷ (macchwu_, "macchwu.")
    ∷ (macchwuo, "macchwuo")
    ∷ (macchwuo_, "macchwuo.")
    ∷ (macchwsu, "macchwsu")
    ∷ (macchwsu_, "macchwsu.")
    ∷ (macchwsuo, "macchwsuo")
    ∷ (macchwsuo_, "macchwsuo.")
    ∷ (machhw, "machhw")
    ∷ (machhw_, "machhw.")
    ∷ (machhwo, "machhwo")
    ∷ (machhwo_, "machhwo.")
    ∷ (machhws, "machhws")
    ∷ (machhws_, "machhws.")
    ∷ (machhwso, "machhwso")
    ∷ (machhwso_, "machhwso.")
    ∷ (machhwu, "machhwu")
    ∷ (machhwu_, "machhwu.")
    ∷ (machhwuo, "machhwuo")
    ∷ (machhwuo_, "machhwuo.")
    ∷ (machhwsu, "machhwsu")
    ∷ (machhwsu_, "machhwsu.")
    ∷ (machhwsuo, "machhwsuo")
    ∷ (machhwsuo_, "machhwsuo.")
    ∷ (maclhw, "maclhw")
    ∷ (maclhw_, "maclhw.")
    ∷ (maclhwo, "maclhwo")
    ∷ (maclhwo_, "maclhwo.")
    ∷ (maclhws, "maclhws")
    ∷ (maclhws_, "maclhws.")
    ∷ (maclhwso, "maclhwso")
    ∷ (maclhwso_, "maclhwso.")
    ∷ []

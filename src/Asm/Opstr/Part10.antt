-- ===== src/Asm/Opstr/Part10.antt =====
-- power64asm/tables.go: the entries of opstr from EVMRA to EVFSCTSF.
use Prim.Native.Nat.{ℕ}
use Prim.Native.String.{String}
use mathlib.Core.List.{List, [], ◌∷◌}
use power.Asm.Op.Part10.{
  evmra, evmwhsmf, evmwhsmi, evmwhsmfa, evmwhsmia, evmwhssf, evmwhumi, evmwhssfa, evmwhumia,
  evmwlsmiaaw, evmwlssiaaw, evmwlsmianw, evmwlssianw, evmwlumi, evmwlumiaaw, evmwlumia, evmwlumianw,
  evmwlusiaaw, evmwsmf, evmwlusianw, evmwsmfa, evmwsmfaa, evmwsmi, evmwsmiaa, evmwsmfan, evmwsmia,
  evmwsmian, evmwssf, evmwssfa, evmwssfaa, evmwumi, evmwssfan, evmwumia, evmwumiaa, evnand,
  evmwumian, evneg, evnor, evorc, evor, evrlw, evrlwi, evsel, evrndw, evslw, evsplatfi, evsrwis,
  evslwi, evsplati, evsrwiu, evsrws, evstdd, evsrwu, evstddx, evstdh, evstdw, evstdhx, evstdwx,
  evstwhe, evstwho, evstwwe, evstwhex, evstwhox, evstwwex, evstwwo, evsubfsmiaaw, evstwwox,
  evsubfssiaaw, evsubfumiaaw, evsubfusiaaw, evsubfw, evsubifw, evxor, evfsabs, evfsnabs, evfsneg,
  evfsadd, evfsmul, evfssub, evfsdiv, evfscmpgt, evfscmplt, evfscmpeq, evfststgt, evfststlt,
  evfststeq, evfscfsi, evfscfsf, evfscfui, evfscfuf, evfsctsi, evfsctui, evfsctsiz, evfsctuiz,
  evfsctsf,
}

unfoldable pub opstr10 : List (ℕ × String)
opstr10 =
    (evmra, "evmra")
    ∷ (evmwhsmf, "evmwhsmf")
    ∷ (evmwhsmi, "evmwhsmi")
    ∷ (evmwhsmfa, "evmwhsmfa")
    ∷ (evmwhsmia, "evmwhsmia")
    ∷ (evmwhssf, "evmwhssf")
    ∷ (evmwhumi, "evmwhumi")
    ∷ (evmwhssfa, "evmwhssfa")
    ∷ (evmwhumia, "evmwhumia")
    ∷ (evmwlsmiaaw, "evmwlsmiaaw")
    ∷ (evmwlssiaaw, "evmwlssiaaw")
    ∷ (evmwlsmianw, "evmwlsmianw")
    ∷ (evmwlssianw, "evmwlssianw")
    ∷ (evmwlumi, "evmwlumi")
    ∷ (evmwlumiaaw, "evmwlumiaaw")
    ∷ (evmwlumia, "evmwlumia")
    ∷ (evmwlumianw, "evmwlumianw")
    ∷ (evmwlusiaaw, "evmwlusiaaw")
    ∷ (evmwsmf, "evmwsmf")
    ∷ (evmwlusianw, "evmwlusianw")
    ∷ (evmwsmfa, "evmwsmfa")
    ∷ (evmwsmfaa, "evmwsmfaa")
    ∷ (evmwsmi, "evmwsmi")
    ∷ (evmwsmiaa, "evmwsmiaa")
    ∷ (evmwsmfan, "evmwsmfan")
    ∷ (evmwsmia, "evmwsmia")
    ∷ (evmwsmian, "evmwsmian")
    ∷ (evmwssf, "evmwssf")
    ∷ (evmwssfa, "evmwssfa")
    ∷ (evmwssfaa, "evmwssfaa")
    ∷ (evmwumi, "evmwumi")
    ∷ (evmwssfan, "evmwssfan")
    ∷ (evmwumia, "evmwumia")
    ∷ (evmwumiaa, "evmwumiaa")
    ∷ (evnand, "evnand")
    ∷ (evmwumian, "evmwumian")
    ∷ (evneg, "evneg")
    ∷ (evnor, "evnor")
    ∷ (evorc, "evorc")
    ∷ (evor, "evor")
    ∷ (evrlw, "evrlw")
    ∷ (evrlwi, "evrlwi")
    ∷ (evsel, "evsel")
    ∷ (evrndw, "evrndw")
    ∷ (evslw, "evslw")
    ∷ (evsplatfi, "evsplatfi")
    ∷ (evsrwis, "evsrwis")
    ∷ (evslwi, "evslwi")
    ∷ (evsplati, "evsplati")
    ∷ (evsrwiu, "evsrwiu")
    ∷ (evsrws, "evsrws")
    ∷ (evstdd, "evstdd")
    ∷ (evsrwu, "evsrwu")
    ∷ (evstddx, "evstddx")
    ∷ (evstdh, "evstdh")
    ∷ (evstdw, "evstdw")
    ∷ (evstdhx, "evstdhx")
    ∷ (evstdwx, "evstdwx")
    ∷ (evstwhe, "evstwhe")
    ∷ (evstwho, "evstwho")
    ∷ (evstwwe, "evstwwe")
    ∷ (evstwhex, "evstwhex")
    ∷ (evstwhox, "evstwhox")
    ∷ (evstwwex, "evstwwex")
    ∷ (evstwwo, "evstwwo")
    ∷ (evsubfsmiaaw, "evsubfsmiaaw")
    ∷ (evstwwox, "evstwwox")
    ∷ (evsubfssiaaw, "evsubfssiaaw")
    ∷ (evsubfumiaaw, "evsubfumiaaw")
    ∷ (evsubfusiaaw, "evsubfusiaaw")
    ∷ (evsubfw, "evsubfw")
    ∷ (evsubifw, "evsubifw")
    ∷ (evxor, "evxor")
    ∷ (evfsabs, "evfsabs")
    ∷ (evfsnabs, "evfsnabs")
    ∷ (evfsneg, "evfsneg")
    ∷ (evfsadd, "evfsadd")
    ∷ (evfsmul, "evfsmul")
    ∷ (evfssub, "evfssub")
    ∷ (evfsdiv, "evfsdiv")
    ∷ (evfscmpgt, "evfscmpgt")
    ∷ (evfscmplt, "evfscmplt")
    ∷ (evfscmpeq, "evfscmpeq")
    ∷ (evfststgt, "evfststgt")
    ∷ (evfststlt, "evfststlt")
    ∷ (evfststeq, "evfststeq")
    ∷ (evfscfsi, "evfscfsi")
    ∷ (evfscfsf, "evfscfsf")
    ∷ (evfscfui, "evfscfui")
    ∷ (evfscfuf, "evfscfuf")
    ∷ (evfsctsi, "evfsctsi")
    ∷ (evfsctui, "evfsctui")
    ∷ (evfsctsiz, "evfsctsiz")
    ∷ (evfsctuiz, "evfsctuiz")
    ∷ (evfsctsf, "evfsctsf")
    ∷ []

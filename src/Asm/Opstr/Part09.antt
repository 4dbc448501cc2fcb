-- ===== src/Asm/Opstr/Part09.antt =====
-- power64asm/tables.go: the entries of opstr from EVADDUMIAAW to EVMHOUSIANW.
use Prim.Native.Nat.{ℕ}
use Prim.Native.String.{String}
use mathlib.Core.List.{List, [], ◌∷◌}
use power.Asm.Op.Part09.{
  evaddumiaaw, evaddusiaaw, evaddw, evand, evcmpeq, evandc, evcmpgts, evcmpgtu, evcmpltu, evcmplts,
  evcntlsw, evcntlzw, evdivws, evdivwu, eveqv, evextsb, evextsh, evldd, evldh, evlddx, evldhx,
  evldw, evlhhesplat, evldwx, evlhhesplatx, evlhhossplat, evlhhousplat, evlhhossplatx,
  evlhhousplatx, evlwhe, evlwhos, evlwhex, evlwhosx, evlwhou, evlwhsplat, evlwhoux, evlwhsplatx,
  evlwwsplat, evmergehi, evlwwsplatx, evmergelo, evmergehilo, evmhegsmfaa, evmergelohi, evmhegsmfan,
  evmhegsmiaa, evmhegumiaa, evmhegsmian, evmhegumian, evmhesmf, evmhesmfaaw, evmhesmfa, evmhesmfanw,
  evmhesmi, evmhesmiaaw, evmhesmia, evmhesmianw, evmhessf, evmhessfa, evmhessfaaw, evmhessfanw,
  evmhessiaaw, evmhessianw, evmheumi, evmheumiaaw, evmheumia, evmheumianw, evmheusiaaw, evmheusianw,
  evmhogsmfaa, evmhogsmiaa, evmhogsmfan, evmhogsmian, evmhogumiaa, evmhosmf, evmhogumian, evmhosmfa,
  evmhosmfaaw, evmhosmi, evmhosmfanw, evmhosmia, evmhosmiaaw, evmhosmianw, evmhossf, evmhossfa,
  evmhossfaaw, evmhossfanw, evmhossiaaw, evmhoumi, evmhossianw, evmhoumia, evmhoumiaaw, evmhousiaaw,
  evmhoumianw, evmhousianw,
}

unfoldable pub opstr09 : List (ℕ × String)
opstr09 =
    (evaddumiaaw, "evaddumiaaw")
    ∷ (evaddusiaaw, "evaddusiaaw")
    ∷ (evaddw, "evaddw")
    ∷ (evand, "evand")
    ∷ (evcmpeq, "evcmpeq")
    ∷ (evandc, "evandc")
    ∷ (evcmpgts, "evcmpgts")
    ∷ (evcmpgtu, "evcmpgtu")
    ∷ (evcmpltu, "evcmpltu")
    ∷ (evcmplts, "evcmplts")
    ∷ (evcntlsw, "evcntlsw")
    ∷ (evcntlzw, "evcntlzw")
    ∷ (evdivws, "evdivws")
    ∷ (evdivwu, "evdivwu")
    ∷ (eveqv, "eveqv")
    ∷ (evextsb, "evextsb")
    ∷ (evextsh, "evextsh")
    ∷ (evldd, "evldd")
    ∷ (evldh, "evldh")
    ∷ (evlddx, "evlddx")
    ∷ (evldhx, "evldhx")
    ∷ (evldw, "evldw")
    ∷ (evlhhesplat, "evlhhesplat")
    ∷ (evldwx, "evldwx")
    ∷ (evlhhesplatx, "evlhhesplatx")
    ∷ (evlhhossplat, "evlhhossplat")
    ∷ (evlhhousplat, "evlhhousplat")
    ∷ (evlhhossplatx, "evlhhossplatx")
    ∷ (evlhhousplatx, "evlhhousplatx")
    ∷ (evlwhe, "evlwhe")
    ∷ (evlwhos, "evlwhos")
    ∷ (evlwhex, "evlwhex")
    ∷ (evlwhosx, "evlwhosx")
    ∷ (evlwhou, "evlwhou")
    ∷ (evlwhsplat, "evlwhsplat")
    ∷ (evlwhoux, "evlwhoux")
    ∷ (evlwhsplatx, "evlwhsplatx")
    ∷ (evlwwsplat, "evlwwsplat")
    ∷ (evmergehi, "evmergehi")
    ∷ (evlwwsplatx, "evlwwsplatx")
    ∷ (evmergelo, "evmergelo")
    ∷ (evmergehilo, "evmergehilo")
    ∷ (evmhegsmfaa, "evmhegsmfaa")
    ∷ (evmergelohi, "evmergelohi")
    ∷ (evmhegsmfan, "evmhegsmfan")
    ∷ (evmhegsmiaa, "evmhegsmiaa")
    ∷ (evmhegumiaa, "evmhegumiaa")
    ∷ (evmhegsmian, "evmhegsmian")
    ∷ (evmhegumian, "evmhegumian")
    ∷ (evmhesmf, "evmhesmf")
    ∷ (evmhesmfaaw, "evmhesmfaaw")
    ∷ (evmhesmfa, "evmhesmfa")
    ∷ (evmhesmfanw, "evmhesmfanw")
    ∷ (evmhesmi, "evmhesmi")
    ∷ (evmhesmiaaw, "evmhesmiaaw")
    ∷ (evmhesmia, "evmhesmia")
    ∷ (evmhesmianw, "evmhesmianw")
    ∷ (evmhessf, "evmhessf")
    ∷ (evmhessfa, "evmhessfa")
    ∷ (evmhessfaaw, "evmhessfaaw")
    ∷ (evmhessfanw, "evmhessfanw")
    ∷ (evmhessiaaw, "evmhessiaaw")
    ∷ (evmhessianw, "evmhessianw")
    ∷ (evmheumi, "evmheumi")
    ∷ (evmheumiaaw, "evmheumiaaw")
    ∷ (evmheumia, "evmheumia")
    ∷ (evmheumianw, "evmheumianw")
    ∷ (evmheusiaaw, "evmheusiaaw")
    ∷ (evmheusianw, "evmheusianw")
    ∷ (evmhogsmfaa, "evmhogsmfaa")
    ∷ (evmhogsmiaa, "evmhogsmiaa")
    ∷ (evmhogsmfan, "evmhogsmfan")
    ∷ (evmhogsmian, "evmhogsmian")
    ∷ (evmhogumiaa, "evmhogumiaa")
    ∷ (evmhosmf, "evmhosmf")
    ∷ (evmhogumian, "evmhogumian")
    ∷ (evmhosmfa, "evmhosmfa")
    ∷ (evmhosmfaaw, "evmhosmfaaw")
    ∷ (evmhosmi, "evmhosmi")
    ∷ (evmhosmfanw, "evmhosmfanw")
    ∷ (evmhosmia, "evmhosmia")
    ∷ (evmhosmiaaw, "evmhosmiaaw")
    ∷ (evmhosmianw, "evmhosmianw")
    ∷ (evmhossf, "evmhossf")
    ∷ (evmhossfa, "evmhossfa")
    ∷ (evmhossfaaw, "evmhossfaaw")
    ∷ (evmhossfanw, "evmhossfanw")
    ∷ (evmhossiaaw, "evmhossiaaw")
    ∷ (evmhoumi, "evmhoumi")
    ∷ (evmhossianw, "evmhossianw")
    ∷ (evmhoumia, "evmhoumia")
    ∷ (evmhoumiaaw, "evmhoumiaaw")
    ∷ (evmhousiaaw, "evmhousiaaw")
    ∷ (evmhoumianw, "evmhoumianw")
    ∷ (evmhousianw, "evmhousianw")
    ∷ []

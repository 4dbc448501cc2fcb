-- ===== src/Asm/Opstr/Part08.antt =====
-- power64asm/tables.go: the entries of opstr from XVADDDP to EVADDSSIAAW.
use Prim.Native.Nat.{ℕ}
use Prim.Native.String.{String}
use mathlib.Core.List.{List, [], ◌∷◌}
use power.Asm.Op.Part08.{
  xvadddp, xvaddsp, xvcmpeqdp, xvcmpeqdp_, xvcmpeqsp, xvcmpeqsp_, xvcmpgedp, xvcmpgedp_, xvcmpgesp,
  xvcmpgesp_, xvcmpgtdp, xvcmpgtdp_, xvcmpgtsp, xvcmpgtsp_, xvcpsgndp, xvcpsgnsp, xvcvdpsp,
  xvcvdpsxds, xvcvdpsxws, xvcvdpuxds, xvcvdpuxws, xvcvspdp, xvcvspsxds, xvcvspsxws, xvcvspuxds,
  xvcvspuxws, xvcvsxddp, xvcvsxdsp, xvcvsxwdp, xvcvsxwsp, xvcvuxddp, xvcvuxdsp, xvcvuxwdp,
  xvcvuxwsp, xvdivdp, xvdivsp, xvmaddadp, xvmaddasp, xvmaxdp, xvmaxsp, xvmindp, xvminsp, xvmsubadp,
  xvmsubasp, xvmuldp, xvmulsp, xvnabsdp, xvnabssp, xvnegdp, xvnegsp, xvnmaddadp, xvnmaddasp,
  xvnmsubadp, xvnmsubasp, xvrdpi, xvrdpic, xvrdpim, xvrdpip, xvrdpiz, xvredp, xvresp, xvrspi,
  xvrspic, xvrspim, xvrspip, xvrspiz, xvrsqrtedp, xvrsqrtesp, xvsqrtdp, xvsqrtsp, xvsubdp, xvsubsp,
  xvtdivdp, xvtdivsp, xvtsqrtdp, xvtsqrtsp, xxland, xxlandc, xxleqv, xxlnand, xxlorc, xxlnor, xxlor,
  xxlxor, xxmrghw, xxmrglw, xxpermdi, xxsel, xxsldwi, xxspltw, brinc, evabs, evaddiw, evaddsmiaaw,
  evaddssiaaw,
}

unfoldable pub opstr08 : List (ℕ × String)
opstr08 =
    (xvadddp, "xvadddp")
    ∷ (xvaddsp, "xvaddsp")
    ∷ (xvcmpeqdp, "xvcmpeqdp")
    ∷ (xvcmpeqdp_, "xvcmpeqdp.")
    ∷ (xvcmpeqsp, "xvcmpeqsp")
    ∷ (xvcmpeqsp_, "xvcmpeqsp.")
    ∷ (xvcmpgedp, "xvcmpgedp")
    ∷ (xvcmpgedp_, "xvcmpgedp.")
    ∷ (xvcmpgesp, "xvcmpgesp")
    ∷ (xvcmpgesp_, "xvcmpgesp.")
    ∷ (xvcmpgtdp, "xvcmpgtdp")
    ∷ (xvcmpgtdp_, "xvcmpgtdp.")
    ∷ (xvcmpgtsp, "xvcmpgtsp")
    ∷ (xvcmpgtsp_, "xvcmpgtsp.")
    ∷ (xvcpsgndp, "xvcpsgndp")
    ∷ (xvcpsgnsp, "xvcpsgnsp")
    ∷ (xvcvdpsp, "xvcvdpsp")
    ∷ (xvcvdpsxds, "xvcvdpsxds")
    ∷ (xvcvdpsxws, "xvcvdpsxws")
    ∷ (xvcvdpuxds, "xvcvdpuxds")
    ∷ (xvcvdpuxws, "xvcvdpuxws")
    ∷ (xvcvspdp, "xvcvspdp")
    ∷ (xvcvspsxds, "xvcvspsxds")
    ∷ (xvcvspsxws, "xvcvspsxws")
    ∷ (xvcvspuxds, "xvcvspuxds")
    ∷ (xvcvspuxws, "xvcvspuxws")
    ∷ (xvcvsxddp, "xvcvsxddp")
    ∷ (xvcvsxdsp, "xvcvsxdsp")
    ∷ (xvcvsxwdp, "xvcvsxwdp")
    ∷ (xvcvsxwsp, "xvcvsxwsp")
    ∷ (xvcvuxddp, "xvcvuxddp")
    ∷ (xvcvuxdsp, "xvcvuxdsp")
    ∷ (xvcvuxwdp, "xvcvuxwdp")
    ∷ (xvcvuxwsp, "xvcvuxwsp")
    ∷ (xvdivdp, "xvdivdp")
    ∷ (xvdivsp, "xvdivsp")
    ∷ (xvmaddadp, "xvmaddadp")
    ∷ (xvmaddasp, "xvmaddasp")
    ∷ (xvmaxdp, "xvmaxdp")
    ∷ (xvmaxsp, "xvmaxsp")
    ∷ (xvmindp, "xvmindp")
    ∷ (xvminsp, "xvminsp")
    ∷ (xvmsubadp, "xvmsubadp")
    ∷ (xvmsubasp, "xvmsubasp")
    ∷ (xvmuldp, "xvmuldp")
    ∷ (xvmulsp, "xvmulsp")
    ∷ (xvnabsdp, "xvnabsdp")
    ∷ (xvnabssp, "xvnabssp")
    ∷ (xvnegdp, "xvnegdp")
    ∷ (xvnegsp, "xvnegsp")
    ∷ (xvnmaddadp, "xvnmaddadp")
    ∷ (xvnmaddasp, "xvnmaddasp")
    ∷ (xvnmsubadp, "xvnmsubadp")
    ∷ (xvnmsubasp, "xvnmsubasp")
    ∷ (xvrdpi, "xvrdpi")
    ∷ (xvrdpic, "xvrdpic")
    ∷ (xvrdpim, "xvrdpim")
    ∷ (xvrdpip, "xvrdpip")
    ∷ (xvrdpiz, "xvrdpiz")
    ∷ (xvredp, "xvredp")
    ∷ (xvresp, "xvresp")
    ∷ (xvrspi, "xvrspi")
    ∷ (xvrspic, "xvrspic")
    ∷ (xvrspim, "xvrspim")
    ∷ (xvrspip, "xvrspip")
    ∷ (xvrspiz, "xvrspiz")
    ∷ (xvrsqrtedp, "xvrsqrtedp")
    ∷ (xvrsqrtesp, "xvrsqrtesp")
    ∷ (xvsqrtdp, "xvsqrtdp")
    ∷ (xvsqrtsp, "xvsqrtsp")
    ∷ (xvsubdp, "xvsubdp")
    ∷ (xvsubsp, "xvsubsp")
    ∷ (xvtdivdp, "xvtdivdp")
    ∷ (xvtdivsp, "xvtdivsp")
    ∷ (xvtsqrtdp, "xvtsqrtdp")
    ∷ (xvtsqrtsp, "xvtsqrtsp")
    ∷ (xxland, "xxland")
    ∷ (xxlandc, "xxlandc")
    ∷ (xxleqv, "xxleqv")
    ∷ (xxlnand, "xxlnand")
    ∷ (xxlorc, "xxlorc")
    ∷ (xxlnor, "xxlnor")
    ∷ (xxlor, "xxlor")
    ∷ (xxlxor, "xxlxor")
    ∷ (xxmrghw, "xxmrghw")
    ∷ (xxmrglw, "xxmrglw")
    ∷ (xxpermdi, "xxpermdi")
    ∷ (xxsel, "xxsel")
    ∷ (xxsldwi, "xxsldwi")
    ∷ (xxspltw, "xxspltw")
    ∷ (brinc, "brinc")
    ∷ (evabs, "evabs")
    ∷ (evaddiw, "evaddiw")
    ∷ (evaddsmiaaw, "evaddsmiaaw")
    ∷ (evaddssiaaw, "evaddssiaaw")
    ∷ []

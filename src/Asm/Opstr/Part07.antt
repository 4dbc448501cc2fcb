-- ===== src/Asm/Opstr/Part07.antt =====
-- power64asm/tables.go: the entries of opstr from DRRND_ to XVABSSP.
use Prim.Native.Nat.{ℕ}
use Prim.Native.String.{String}
use mathlib.Core.List.{List, [], ◌∷◌}
use power.Asm.Op.Part07.{
  drrnd_, drintx, drintx_, drintn, drintn_, dctdp, dctdp_, dctqpq, dctqpq_, drsp, drsp_, drdpq,
  drdpq_, dcffix, dcffix_, dcffixq, dcffixq_, dctfix, dctfix_, ddedpd, ddedpd_, denbcd, denbcd_,
  dxex, dxex_, diex, diex_, dscli, dscli_, dscri, dscri_, lxsdx, lxsiwax, lxsiwzx, lxsspx, lxvd2x,
  lxvdsx, lxvw4x, stxsdx, stxsiwx, stxsspx, stxvd2x, stxvw4x, xsabsdp, xsadddp, xsaddsp, xscmpodp,
  xscmpudp, xscpsgndp, xscvdpsp, xscvdpspn, xscvdpsxds, xscvdpsxws, xscvdpuxds, xscvdpuxws,
  xscvspdp, xscvspdpn, xscvsxddp, xscvsxdsp, xscvuxddp, xscvuxdsp, xsdivdp, xsdivsp, xsmaddadp,
  xsmaddasp, xsmaxdp, xsmindp, xsmsubadp, xsmsubasp, xsmuldp, xsmulsp, xsnabsdp, xsnegdp,
  xsnmaddadp, xsnmaddasp, xsnmsubadp, xsnmsubasp, xsrdpi, xsrdpic, xsrdpim, xsrdpip, xsrdpiz,
  xsredp, xsresp, xsrsp, xsrsqrtedp, xsrsqrtesp, xssqrtdp, xssqrtsp, xssubdp, xssubsp, xstdivdp,
  xstsqrtdp, xvabsdp, xvabssp,
}

unfoldable pub opstr07 : List (ℕ × String)
opstr07 =
    (drrnd_, "drrnd.")
    ∷ (drintx, "drintx")
    ∷ (drintx_, "drintx.")
    ∷ (drintn, "drintn")
    ∷ (drintn_, "drintn.")
    ∷ (dctdp, "dctdp")
    ∷ (dctdp_, "dctdp.")
    ∷ (dctqpq, "dctqpq")
    ∷ (dctqpq_, "dctqpq.")
    ∷ (drsp, "drsp")
    ∷ (drsp_, "drsp.")
    ∷ (drdpq, "drdpq")
    ∷ (drdpq_, "drdpq.")
    ∷ (dcffix, "dcffix")
    ∷ (dcffix_, "dcffix.")
    ∷ (dcffixq, "dcffixq")
    ∷ (dcffixq_, "dcffixq.")
    ∷ (dctfix, "dctfix")
    ∷ (dctfix_, "dctfix.")
    ∷ (ddedpd, "ddedpd")
    ∷ (ddedpd_, "ddedpd.")
    ∷ (denbcd, "denbcd")
    ∷ (denbcd_, "denbcd.")
    ∷ (dxex, "dxex")
    ∷ (dxex_, "dxex.")
    ∷ (diex, "diex")
    ∷ (diex_, "diex.")
    ∷ (dscli, "dscli")
    ∷ (dscli_, "dscli.")
    ∷ (dscri, "dscri")
    ∷ (dscri_, "dscri.")
    ∷ (lxsdx, "lxsdx")
    ∷ (lxsiwax, "lxsiwax")
    ∷ (lxsiwzx, "lxsiwzx")
    ∷ (lxsspx, "lxsspx")
    ∷ (lxvd2x, "lxvd2x")
    ∷ (lxvdsx, "lxvdsx")
    ∷ (lxvw4x, "lxvw4x")
    ∷ (stxsdx, "stxsdx")
    ∷ (stxsiwx, "stxsiwx")
    ∷ (stxsspx, "stxsspx")
    ∷ (stxvd2x, "stxvd2x")
    ∷ (stxvw4x, "stxvw4x")
    ∷ (xsabsdp, "xsabsdp")
    ∷ (xsadddp, "xsadddp")
    ∷ (xsaddsp, "xsaddsp")
    ∷ (xscmpodp, "xscmpodp")
    ∷ (xscmpudp, "xscmpudp")
    ∷ (xscpsgndp, "xscpsgndp")
    ∷ (xscvdpsp, "xscvdpsp")
    ∷ (xscvdpspn, "xscvdpspn")
    ∷ (xscvdpsxds, "xscvdpsxds")
    ∷ (xscvdpsxws, "xscvdpsxws")
    ∷ (xscvdpuxds, "xscvdpuxds")
    ∷ (xscvdpuxws, "xscvdpuxws")
    ∷ (xscvspdp, "xscvspdp")
    ∷ (xscvspdpn, "xscvspdpn")
    ∷ (xscvsxddp, "xscvsxddp")
    ∷ (xscvsxdsp, "xscvsxdsp")
    ∷ (xscvuxddp, "xscvuxddp")
    ∷ (xscvuxdsp, "xscvuxdsp")
    ∷ (xsdivdp, "xsdivdp")
    ∷ (xsdivsp, "xsdivsp")
    ∷ (xsmaddadp, "xsmaddadp")
    ∷ (xsmaddasp, "xsmaddasp")
    ∷ (xsmaxdp, "xsmaxdp")
    ∷ (xsmindp, "xsmindp")
    ∷ (xsmsubadp, "xsmsubadp")
    ∷ (xsmsubasp, "xsmsubasp")
    ∷ (xsmuldp, "xsmuldp")
    ∷ (xsmulsp, "xsmulsp")
    ∷ (xsnabsdp, "xsnabsdp")
    ∷ (xsnegdp, "xsnegdp")
    ∷ (xsnmaddadp, "xsnmaddadp")
    ∷ (xsnmaddasp, "xsnmaddasp")
    ∷ (xsnmsubadp, "xsnmsubadp")
    ∷ (xsnmsubasp, "xsnmsubasp")
    ∷ (xsrdpi, "xsrdpi")
    ∷ (xsrdpic, "xsrdpic")
    ∷ (xsrdpim, "xsrdpim")
    ∷ (xsrdpip, "xsrdpip")
    ∷ (xsrdpiz, "xsrdpiz")
    ∷ (xsredp, "xsredp")
    ∷ (xsresp, "xsresp")
    ∷ (xsrsp, "xsrsp")
    ∷ (xsrsqrtedp, "xsrsqrtedp")
    ∷ (xsrsqrtesp, "xsrsqrtesp")
    ∷ (xssqrtdp, "xssqrtdp")
    ∷ (xssqrtsp, "xssqrtsp")
    ∷ (xssubdp, "xssubdp")
    ∷ (xssubsp, "xssubsp")
    ∷ (xstdivdp, "xstdivdp")
    ∷ (xstsqrtdp, "xstsqrtdp")
    ∷ (xvabsdp, "xvabsdp")
    ∷ (xvabssp, "xvabssp")
    ∷ []

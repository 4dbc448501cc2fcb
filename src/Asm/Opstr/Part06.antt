-- ===== src/Asm/Opstr/Part06.antt =====
-- power64asm/tables.go: the entries of opstr from VAND to DRRND.
use Prim.Native.Nat.{ℕ}
use Prim.Native.String.{String}
use mathlib.Core.List.{List, [], ◌∷◌}
use power.Asm.Op.Part06.{
  vand, vandc, veqv, vnand, vorc, vnor, vor, vxor, vrlb, vrlh, vrlw, vrld, vslb, vslh, vslw, vsld,
  vsrb, vsrh, vsrw, vsrd, vsrab, vsrah, vsraw, vsrad, vaddfp, vsubfp, vmaddfp, vnmsubfp, vmaxfp,
  vminfp, vctsxs, vctuxs, vcfsx, vcfux, vrfim, vrfin, vrfip, vrfiz, vcmpbfp, vcmpbfp_, vcmpeqfp,
  vcmpeqfp_, vcmpgefp, vcmpgefp_, vcmpgtfp, vcmpgtfp_, vexptefp, vlogefp, vrefp, vrsqrtefp, vcipher,
  vcipherlast, vncipher, vncipherlast, vsbox, vshasigmad, vshasigmaw, vpmsumb, vpmsumd, vpmsumh,
  vpmsumw, vpermxor, vgbbd, vclzb, vclzh, vclzw, vclzd, vpopcntb, vpopcntd, vpopcnth, vpopcntw,
  vbpermq, bcdadd_, bcdsub_, mtvscr, mfvscr, dadd, dadd_, dsub, dsub_, dmul, dmul_, ddiv, ddiv_,
  dcmpu, dcmpo, dtstdc, dtstdg, dtstex, dtstsf, dquai, dquai_, dqua, dqua_, drrnd,
}

unfoldable pub opstr06 : List (ℕ × String)
opstr06 =
    (vand, "vand")
    ∷ (vandc, "vandc")
    ∷ (veqv, "veqv")
    ∷ (vnand, "vnand")
    ∷ (vorc, "vorc")
    ∷ (vnor, "vnor")
    ∷ (vor, "vor")
    ∷ (vxor, "vxor")
    ∷ (vrlb, "vrlb")
    ∷ (vrlh, "vrlh")
    ∷ (vrlw, "vrlw")
    ∷ (vrld, "vrld")
    ∷ (vslb, "vslb")
    ∷ (vslh, "vslh")
    ∷ (vslw, "vslw")
    ∷ (vsld, "vsld")
    ∷ (vsrb, "vsrb")
    ∷ (vsrh, "vsrh")
    ∷ (vsrw, "vsrw")
    ∷ (vsrd, "vsrd")
    ∷ (vsrab, "vsrab")
    ∷ (vsrah, "vsrah")
    ∷ (vsraw, "vsraw")
    ∷ (vsrad, "vsrad")
    ∷ (vaddfp, "vaddfp")
    ∷ (vsubfp, "vsubfp")
    ∷ (vmaddfp, "vmaddfp")
    ∷ (vnmsubfp, "vnmsubfp")
    ∷ (vmaxfp, "vmaxfp")
    ∷ (vminfp, "vminfp")
    ∷ (vctsxs, "vctsxs")
    ∷ (vctuxs, "vctuxs")
    ∷ (vcfsx, "vcfsx")
    ∷ (vcfux, "vcfux")
    ∷ (vrfim, "vrfim")
    ∷ (vrfin, "vrfin")
    ∷ (vrfip, "vrfip")
    ∷ (vrfiz, "vrfiz")
    ∷ (vcmpbfp, "vcmpbfp")
    ∷ (vcmpbfp_, "vcmpbfp.")
    ∷ (vcmpeqfp, "vcmpeqfp")
    ∷ (vcmpeqfp_, "vcmpeqfp.")
    ∷ (vcmpgefp, "vcmpgefp")
    ∷ (vcmpgefp_, "vcmpgefp.")
    ∷ (vcmpgtfp, "vcmpgtfp")
    ∷ (vcmpgtfp_, "vcmpgtfp.")
    ∷ (vexptefp, "vexptefp")
    ∷ (vlogefp, "vlogefp")
    ∷ (vrefp, "vrefp")
    ∷ (vrsqrtefp, "vrsqrtefp")
    ∷ (vcipher, "vcipher")
    ∷ (vcipherlast, "vcipherlast")
    ∷ (vncipher, "vncipher")
    ∷ (vncipherlast, "vncipherlast")
    ∷ (vsbox, "vsbox")
    ∷ (vshasigmad, "vshasigmad")
    ∷ (vshasigmaw, "vshasigmaw")
    ∷ (vpmsumb, "vpmsumb")
    ∷ (vpmsumd, "vpmsumd")
    ∷ (vpmsumh, "vpmsumh")
    ∷ (vpmsumw, "vpmsumw")
    ∷ (vpermxor, "vpermxor")
    ∷ (vgbbd, "vgbbd")
    ∷ (vclzb, "vclzb")
    ∷ (vclzh, "vclzh")
    ∷ (vclzw, "vclzw")
    ∷ (vclzd, "vclzd")
    ∷ (vpopcntb, "vpopcntb")
    ∷ (vpopcntd, "vpopcntd")
    ∷ (vpopcnth, "vpopcnth")
    ∷ (vpopcntw, "vpopcntw")
    ∷ (vbpermq, "vbpermq")
    ∷ (bcdadd_, "bcdadd.")
    ∷ (bcdsub_, "bcdsub.")
    ∷ (mtvscr, "mtvscr")
    ∷ (mfvscr, "mfvscr")
    ∷ (dadd, "dadd")
    ∷ (dadd_, "dadd.")
    ∷ (dsub, "dsub")
    ∷ (dsub_, "dsub.")
    ∷ (dmul, "dmul")
    ∷ (dmul_, "dmul.")
    ∷ (ddiv, "ddiv")
    ∷ (ddiv_, "ddiv.")
    ∷ (dcmpu, "dcmpu")
    ∷ (dcmpo, "dcmpo")
    ∷ (dtstdc, "dtstdc")
    ∷ (dtstdg, "dtstdg")
    ∷ (dtstex, "dtstex")
    ∷ (dtstsf, "dtstsf")
    ∷ (dquai, "dquai")
    ∷ (dquai_, "dquai.")
    ∷ (dqua, "dqua")
    ∷ (dqua_, "dqua.")
    ∷ (drrnd, "drrnd")
    ∷ []

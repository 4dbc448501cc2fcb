-- ===== src/Asm/Opstr/Part04.antt =====
-- power64asm/tables.go: the entries of opstr from FCTIWUZ to VADDUWM.
use Prim.Native.Nat.{ℕ}
use Prim.Native.String.{String}
use mathlib.Core.List.{List, [], ◌∷◌}
use power.Asm.Op.Part04.{
  fctiwuz, fctiwuz_, fcfid, fcfid_, fcfidu, fcfidu_, fcfids, fcfids_, fcfidus, fcfidus_, frin,
  frin_, friz, friz_, frip, frip_, frim, frim_, fcmpu, fcmpo, fsel, fsel_, mffs, mffs_, mcrfs,
  mtfsfi, mtfsfi_, mtfsf, mtfsf_, mtfsb0, mtfsb0_, mtfsb1, mtfsb1_, lvebx, lvehx, lvewx, lvx, lvxl,
  stvebx, stvehx, stvewx, stvx, stvxl, lvsl, lvsr, vpkpx, vpksdss, vpksdus, vpkshss, vpkshus,
  vpkswss, vpkswus, vpkudum, vpkudus, vpkuhum, vpkuhus, vpkuwum, vpkuwus, vupkhpx, vupklpx, vupkhsb,
  vupkhsh, vupkhsw, vupklsb, vupklsh, vupklsw, vmrghb, vmrghh, vmrglb, vmrglh, vmrghw, vmrglw,
  vmrgew, vmrgow, vspltb, vsplth, vspltw, vspltisb, vspltish, vspltisw, vperm, vsel, vsl, vsldoi,
  vslo, vsr, vsro, vaddcuw, vaddsbs, vaddshs, vaddsws, vaddubm, vaddudm, vadduhm, vadduwm,
}

unfoldable pub opstr04 : List (ℕ × String)
opstr04 =
    (fctiwuz, "fctiwuz")
    ∷ (fctiwuz_, "fctiwuz.")
    ∷ (fcfid, "fcfid")
    ∷ (fcfid_, "fcfid.")
    ∷ (fcfidu, "fcfidu")
    ∷ (fcfidu_, "fcfidu.")
    ∷ (fcfids, "fcfids")
    ∷ (fcfids_, "fcfids.")
    ∷ (fcfidus, "fcfidus")
    ∷ (fcfidus_, "fcfidus.")
    ∷ (frin, "frin")
    ∷ (frin_, "frin.")
    ∷ (friz, "friz")
    ∷ (friz_, "friz.")
    ∷ (frip, "frip")
    ∷ (frip_, "frip.")
    ∷ (frim, "frim")
    ∷ (frim_, "frim.")
    ∷ (fcmpu, "fcmpu")
    ∷ (fcmpo, "fcmpo")
    ∷ (fsel, "fsel")
    ∷ (fsel_, "fsel.")
    ∷ (mffs, "mffs")
    ∷ (mffs_, "mffs.")
    ∷ (mcrfs, "mcrfs")
    ∷ (mtfsfi, "mtfsfi")
    ∷ (mtfsfi_, "mtfsfi.")
    ∷ (mtfsf, "mtfsf")
    ∷ (mtfsf_, "mtfsf.")
    ∷ (mtfsb0, "mtfsb0")
    ∷ (mtfsb0_, "mtfsb0.")
    ∷ (mtfsb1, "mtfsb1")
    ∷ (mtfsb1_, "mtfsb1.")
    ∷ (lvebx, "lvebx")
    ∷ (lvehx, "lvehx")
    ∷ (lvewx, "lvewx")
    ∷ (lvx, "lvx")
    ∷ (lvxl, "lvxl")
    ∷ (stvebx, "stvebx")
    ∷ (stvehx, "stvehx")
    ∷ (stvewx, "stvewx")
    ∷ (stvx, "stvx")
    ∷ (stvxl, "stvxl")
    ∷ (lvsl, "lvsl")
    ∷ (lvsr, "lvsr")
    ∷ (vpkpx, "vpkpx")
    ∷ (vpksdss, "vpksdss")
    ∷ (vpksdus, "vpksdus")
    ∷ (vpkshss, "vpkshss")
    ∷ (vpkshus, "vpkshus")
    ∷ (vpkswss, "vpkswss")
    ∷ (vpkswus, "vpkswus")
    ∷ (vpkudum, "vpkudum")
    ∷ (vpkudus, "vpkudus")
    ∷ (vpkuhum, "vpkuhum")
    ∷ (vpkuhus, "vpkuhus")
    ∷ (vpkuwum, "vpkuwum")
    ∷ (vpkuwus, "vpkuwus")
    ∷ (vupkhpx, "vupkhpx")
    ∷ (vupklpx, "vupklpx")
    ∷ (vupkhsb, "vupkhsb")
    ∷ (vupkhsh, "vupkhsh")
    ∷ (vupkhsw, "vupkhsw")
    ∷ (vupklsb, "vupklsb")
    ∷ (vupklsh, "vupklsh")
    ∷ (vupklsw, "vupklsw")
    ∷ (vmrghb, "vmrghb")
    ∷ (vmrghh, "vmrghh")
    ∷ (vmrglb, "vmrglb")
    ∷ (vmrglh, "vmrglh")
    ∷ (vmrghw, "vmrghw")
    ∷ (vmrglw, "vmrglw")
    ∷ (vmrgew, "vmrgew")
    ∷ (vmrgow, "vmrgow")
    ∷ (vspltb, "vspltb")
    ∷ (vsplth, "vsplth")
    ∷ (vspltw, "vspltw")
    ∷ (vspltisb, "vspltisb")
    ∷ (vspltish, "vspltish")
    ∷ (vspltisw, "vspltisw")
    ∷ (vperm, "vperm")
    ∷ (vsel, "vsel")
    ∷ (vsl, "vsl")
    ∷ (vsldoi, "vsldoi")
    ∷ (vslo, "vslo")
    ∷ (vsr, "vsr")
    ∷ (vsro, "vsro")
    ∷ (vaddcuw, "vaddcuw")
    ∷ (vaddsbs, "vaddsbs")
    ∷ (vaddshs, "vaddshs")
    ∷ (vaddsws, "vaddsws")
    ∷ (vaddubm, "vaddubm")
    ∷ (vaddudm, "vaddudm")
    ∷ (vadduhm, "vadduhm")
    ∷ (vadduwm, "vadduwm")
    ∷ []

-- ===== src/Asm/Opstr/Part05.antt =====
-- power64asm/tables.go: the entries of opstr from VADDUBS to VCMPGTUW_.
use Prim.Native.Nat.{ℕ}
use Prim.Native.String.{String}
use mathlib.Core.List.{List, [], ◌∷◌}
use power.Asm.Op.Part05.{
  vaddubs, vadduhs, vadduws, vadduqm, vaddeuqm, vaddcuq, vaddecuq, vsubcuw, vsubsbs, vsubshs,
  vsubsws, vsububm, vsubudm, vsubuhm, vsubuwm, vsububs, vsubuhs, vsubuws, vsubuqm, vsubeuqm,
  vsubcuq, vsubecuq, vmulesb, vmuleub, vmulosb, vmuloub, vmulesh, vmuleuh, vmulosh, vmulouh,
  vmulesw, vmuleuw, vmulosw, vmulouw, vmuluwm, vmhaddshs, vmhraddshs, vmladduhm, vmsumubm, vmsummbm,
  vmsumshm, vmsumshs, vmsumuhm, vmsumuhs, vsumsws, vsum2sws, vsum4sbs, vsum4shs, vsum4ubs, vavgsb,
  vavgsh, vavgsw, vavgub, vavguw, vavguh, vmaxsb, vmaxsd, vmaxub, vmaxud, vmaxsh, vmaxsw, vmaxuh,
  vmaxuw, vminsb, vminsd, vminub, vminud, vminsh, vminsw, vminuh, vminuw, vcmpequb, vcmpequb_,
  vcmpequh, vcmpequh_, vcmpequw, vcmpequw_, vcmpequd, vcmpequd_, vcmpgtsb, vcmpgtsb_, vcmpgtsd,
  vcmpgtsd_, vcmpgtsh, vcmpgtsh_, vcmpgtsw, vcmpgtsw_, vcmpgtub, vcmpgtub_, vcmpgtud, vcmpgtud_,
  vcmpgtuh, vcmpgtuh_, vcmpgtuw, vcmpgtuw_,
}

unfoldable pub opstr05 : List (ℕ × String)
opstr05 =
    (vaddubs, "vaddubs")
    ∷ (vadduhs, "vadduhs")
    ∷ (vadduws, "vadduws")
    ∷ (vadduqm, "vadduqm")
    ∷ (vaddeuqm, "vaddeuqm")
    ∷ (vaddcuq, "vaddcuq")
    ∷ (vaddecuq, "vaddecuq")
    ∷ (vsubcuw, "vsubcuw")
    ∷ (vsubsbs, "vsubsbs")
    ∷ (vsubshs, "vsubshs")
    ∷ (vsubsws, "vsubsws")
    ∷ (vsububm, "vsububm")
    ∷ (vsubudm, "vsubudm")
    ∷ (vsubuhm, "vsubuhm")
    ∷ (vsubuwm, "vsubuwm")
    ∷ (vsububs, "vsububs")
    ∷ (vsubuhs, "vsubuhs")
    ∷ (vsubuws, "vsubuws")
    ∷ (vsubuqm, "vsubuqm")
    ∷ (vsubeuqm, "vsubeuqm")
    ∷ (vsubcuq, "vsubcuq")
    ∷ (vsubecuq, "vsubecuq")
    ∷ (vmulesb, "vmulesb")
    ∷ (vmuleub, "vmuleub")
    ∷ (vmulosb, "vmulosb")
    ∷ (vmuloub, "vmuloub")
    ∷ (vmulesh, "vmulesh")
    ∷ (vmuleuh, "vmuleuh")
    ∷ (vmulosh, "vmulosh")
    ∷ (vmulouh, "vmulouh")
    ∷ (vmulesw, "vmulesw")
    ∷ (vmuleuw, "vmuleuw")
    ∷ (vmulosw, "vmulosw")
    ∷ (vmulouw, "vmulouw")
    ∷ (vmuluwm, "vmuluwm")
    ∷ (vmhaddshs, "vmhaddshs")
    ∷ (vmhraddshs, "vmhraddshs")
    ∷ (vmladduhm, "vmladduhm")
    ∷ (vmsumubm, "vmsumubm")
    ∷ (vmsummbm, "vmsummbm")
    ∷ (vmsumshm, "vmsumshm")
    ∷ (vmsumshs, "vmsumshs")
    ∷ (vmsumuhm, "vmsumuhm")
    ∷ (vmsumuhs, "vmsumuhs")
    ∷ (vsumsws, "vsumsws")
    ∷ (vsum2sws, "vsum2sws")
    ∷ (vsum4sbs, "vsum4sbs")
    ∷ (vsum4shs, "vsum4shs")
    ∷ (vsum4ubs, "vsum4ubs")
    ∷ (vavgsb, "vavgsb")
    ∷ (vavgsh, "vavgsh")
    ∷ (vavgsw, "vavgsw")
    ∷ (vavgub, "vavgub")
    ∷ (vavguw, "vavguw")
    ∷ (vavguh, "vavguh")
    ∷ (vmaxsb, "vmaxsb")
    ∷ (vmaxsd, "vmaxsd")
    ∷ (vmaxub, "vmaxub")
    ∷ (vmaxud, "vmaxud")
    ∷ (vmaxsh, "vmaxsh")
    ∷ (vmaxsw, "vmaxsw")
    ∷ (vmaxuh, "vmaxuh")
    ∷ (vmaxuw, "vmaxuw")
    ∷ (vminsb, "vminsb")
    ∷ (vminsd, "vminsd")
    ∷ (vminub, "vminub")
    ∷ (vminud, "vminud")
    ∷ (vminsh, "vminsh")
    ∷ (vminsw, "vminsw")
    ∷ (vminuh, "vminuh")
    ∷ (vminuw, "vminuw")
    ∷ (vcmpequb, "vcmpequb")
    ∷ (vcmpequb_, "vcmpequb.")
    ∷ (vcmpequh, "vcmpequh")
    ∷ (vcmpequh_, "vcmpequh.")
    ∷ (vcmpequw, "vcmpequw")
    ∷ (vcmpequw_, "vcmpequw.")
    ∷ (vcmpequd, "vcmpequd")
    ∷ (vcmpequd_, "vcmpequd.")
    ∷ (vcmpgtsb, "vcmpgtsb")
    ∷ (vcmpgtsb_, "vcmpgtsb.")
    ∷ (vcmpgtsd, "vcmpgtsd")
    ∷ (vcmpgtsd_, "vcmpgtsd.")
    ∷ (vcmpgtsh, "vcmpgtsh")
    ∷ (vcmpgtsh_, "vcmpgtsh.")
    ∷ (vcmpgtsw, "vcmpgtsw")
    ∷ (vcmpgtsw_, "vcmpgtsw.")
    ∷ (vcmpgtub, "vcmpgtub")
    ∷ (vcmpgtub_, "vcmpgtub.")
    ∷ (vcmpgtud, "vcmpgtud")
    ∷ (vcmpgtud_, "vcmpgtud.")
    ∷ (vcmpgtuh, "vcmpgtuh")
    ∷ (vcmpgtuh_, "vcmpgtuh.")
    ∷ (vcmpgtuw, "vcmpgtuw")
    ∷ (vcmpgtuw_, "vcmpgtuw.")
    ∷ []

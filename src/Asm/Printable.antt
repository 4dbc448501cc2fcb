-- ===== src/Asm/Printable.antt =====
-- What both printers ask of the arguments.
pub mod Decoded
use power.Base.{
  ℕ, ◌+◌, ◌-◌, ◌%◌, ◌^◌, ◌≤◌, ◌<◌, ◌≡◌, arith, ℤ, pos, negsuc, List, [], ◌∷◌, ◌++◌, Option, none,
  some,
}
use power.Asm.Inst.{Arg, Args, reg, cond_reg, sp_reg, pc_rel, label, imm, offset, r0, cr0, cond0lt}
use power.Base.Int.{sub_signed}

-- The register R0 to V63.
abbrev pub IsReg : ℕ → Type 0
IsReg r = (1 ≤ r) × (r ≤ 128)

-- One of the 32 condition bits or the 8 condition fields.
abbrev pub IsCond : ℤ → Type 0
IsCond (pos v) = (1 ≤ v) × (v ≤ 40)
IsCond (negsuc v) = ⊥

abbrev pub StartsWithReg : Args → Type 0
StartsWithReg [] = ⊥
StartsWithReg (some (reg r) ∷ rest) = IsReg r
StartsWithReg (x ∷ rest) = ⊥

-- An argument in its range, in front of `rest`; a register follows an offset.
abbrev pub IsArg : Arg → Args → Type 0
IsArg (reg r) rest = IsReg r
IsArg (cond_reg c) rest = IsCond c
IsArg (offset o) rest = StartsWithReg rest
IsArg (sp_reg s) rest = Unit
IsArg (pc_rel r) rest = Unit
IsArg (label l) rest = Unit
IsArg (imm i) rest = Unit

-- Any argument but an offset.
abbrev pub IsPlain : Arg → Type 0
IsPlain (offset o) = ⊥
IsPlain (reg r) = Unit
IsPlain (cond_reg c) = Unit
IsPlain (sp_reg s) = Unit
IsPlain (pc_rel r) = Unit
IsPlain (label l) = Unit
IsPlain (imm i) = Unit

abbrev pub Printable : Args → Type 0
Printable [] = Unit
Printable (none ∷ rest) = Unit
Printable (some arg ∷ rest) = IsArg arg rest × Printable rest

-- Differences of such a register and a constant do not wrap around.
pub field_number : (v : ℕ) → 33 ≤ v → v ≤ 40 → sub_signed 8 (pos v) cr0 ≡ pos (v - 33)
field_number v h k = ground arith

pub bit_number : (v : ℕ) → 1 ≤ v → v ≤ 40 → sub_signed 8 (pos v) cond0lt ≡ pos (v - 1)
bit_number v h k = ground arith

pub reg_number-pred : (r : ℕ) → IsReg r → pos ((r + 2 ^ 16 - r0) % 2 ^ 16) ≡ pos (r - 1)
reg_number-pred r h = ground arith

StartsWithReg-snoc : (args : Args) → StartsWithReg args → StartsWithReg (args ++ (none ∷ []))
StartsWithReg-snoc [] h = h
StartsWithReg-snoc (some (reg r) ∷ rest) h = h
StartsWithReg-snoc (x ∷ rest) h = absurd h

IsArg-snoc : (arg : Arg) (rest : Args) → IsArg arg rest → IsArg arg (rest ++ (none ∷ []))
IsArg-snoc (offset o) rest h = StartsWithReg-snoc rest h
IsArg-snoc (reg r) rest h = h
IsArg-snoc (cond_reg c) rest h = h
IsArg-snoc (sp_reg s) rest h = h
IsArg-snoc (pc_rel r) rest h = h
IsArg-snoc (label l) rest h = h
IsArg-snoc (imm i) rest h = h

-- The array after a removal ends in one more nil.
pub Printable-snoc : (args : Args) → Printable args → Printable (args ++ (none ∷ []))
Printable-snoc [] h = tt
Printable-snoc (none ∷ rest) h = tt
Printable-snoc (some arg ∷ rest) h = (IsArg-snoc arg rest h.0, Printable-snoc rest h.1)

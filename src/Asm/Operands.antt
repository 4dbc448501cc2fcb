-- ===== src/Asm/Operands.antt =====
-- The operands' texts that a printer makes of an instruction's arguments, and the loop that both
-- printers have: it walks over the array, and takes the register behind an offset out of it.
pub mod Walk
use power.Base.{
  ℕ, zero, suc, ◌+◌, ℤ, Bool, true, false, Bytes, List, [], ◌∷◌, Option, none, some, if◌then◌else◌,
  Outcome, ok, ◌>>=◌,
}
use power.Asm.Inst.{Arg, Args, reg, cond_reg, sp_reg, pc_rel, label, imm, offset}
use power.Asm.LoadStore.{arg_at}

abbrev pub is_empty : Bytes → Bool
is_empty [] = true
is_empty (c ∷ s) = false

-- An empty text is left out.
abbrev pub cons_text : Bytes → List Bytes → List Bytes
cons_text t ts = if is_empty t then ts else t ∷ ts

-- The texts from left to right, where `k` operands stand in front: `plain` prints an argument at its
-- index, and `memory` prints an offset with the register behind it.
module _ (plain : ℕ → Arg → Bytes) (memory : ℤ → ℕ → Bytes) where
  unfoldable pub operands : ℕ → Args → List Bytes
  operands k [] = []
  operands k (none ∷ rest) = []
  operands k (some (offset o) ∷ some (reg r) ∷ rest) =
      cons_text (memory o r) (operands (k + 1) rest)
  operands k (some (offset o) ∷ rest) = []
  operands k (some (reg r) ∷ rest) = cons_text (plain k (reg r)) (operands (k + 1) rest)
  operands k (some (cond_reg c) ∷ rest) = cons_text (plain k (cond_reg c)) (operands (k + 1) rest)
  operands k (some (imm i) ∷ rest) = cons_text (plain k (imm i)) (operands (k + 1) rest)
  operands k (some (sp_reg s) ∷ rest) = cons_text (plain k (sp_reg s)) (operands (k + 1) rest)
  operands k (some (pc_rel r) ∷ rest) = cons_text (plain k (pc_rel r)) (operands (k + 1) rest)
  operands k (some (label l) ∷ rest) = cons_text (plain k (label l)) (operands (k + 1) rest)

-- The loop over the array, with the printer of one argument as `step`: the rounds that are left and
-- the index.
module _ (step : Args → ℕ → Arg → Outcome (Bytes × Args)) where
  unfoldable pub walk : ℕ → ℕ → Args → Outcome (List Bytes)
  walk zero i args = ok []
  walk (suc rounds) i args = elim (arg_at args i) [
    | none ↦ ok []
    | some arg ↦ (do
      (text, args') ← step args i arg
      texts ← walk rounds (i + 1) args'
      ok (cons_text text texts))
  ]

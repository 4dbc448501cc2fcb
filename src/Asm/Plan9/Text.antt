-- ===== src/Asm/Plan9/Text.antt =====
-- The operands' texts that `plan9Syntax` prints, read off the arguments with no array and no removal.
pub mod Printed
use power.Base.{
  ℕ, zero, suc, ◌+◌, ◌-◌, ◌/◌, ◌%◌, ◌^◌, ℤ, pos, negsuc, Bool, ◌&&◌, Bytes, codes, List, [], ◌∷◌,
  ◌++◌, leb, ltb, ◌==◌, if◌then◌else◌,
}
use power.Fmt
use power.Strings
use power.Asm.Inst.{Arg, Args, Inst, reg, cond_reg, sp_reg, pc_rel, label, imm, offset, r0}
use power.Asm.Opstr
use power.Asm.Operands.{operands}
use power.Asm.Plan9.{Symname, plan9_reg, plan9_sp_reg, plan9_target}

unfoldable pub bit_name : ℕ → Bytes
bit_name zero = codes "LT"
bit_name (suc zero) = codes "GT"
bit_name (suc (suc zero)) = codes "EQ"
bit_name (suc (suc (suc n))) = codes "SO"

-- Of a condition register: 33 to 40 are the fields, 1 to 32 the bits, four to a field.
unfoldable pub cond_text : ℕ → ℤ → Bytes
unfolding bit_name
cond_text op (negsuc v) = []
cond_text op (pos v) =
    if v == 33 && Strings.has_prefix (Opstr.op_string op) (codes "cmp")
    then []
    else if leb 33 v
    then codes "CR" ++ Fmt.decimal (pos (v - 33))
    else if leb v 4
    then bit_name ((v - 1) % 4)
    else codes "4*CR" ++ (Fmt.decimal (pos ((v - 1) / 4)) ++ (codes "+" ++ bit_name ((v - 1) % 4)))

unfoldable pub memory_text : ℤ → ℕ → Bytes
memory_text o r =
    if r == r0
    then Fmt.decimal o ++ codes "(0)"
    else Fmt.decimal o ++ (codes "(R" ++ (Fmt.decimal (pos (r - 1)) ++ codes ")"))

unfoldable pub plain_text : ℕ → ℕ → Symname → ℕ → Arg → Bytes
unfolding cond_text
plain_text op pc symname k (reg r) = plan9_reg op k r
plain_text op pc symname k (cond_reg c) = cond_text op c
plain_text op pc symname k (imm i) = codes "$" ++ Fmt.decimal i
plain_text op pc symname k (sp_reg s) = plan9_sp_reg s
plain_text op pc symname k (pc_rel r) = plan9_target pc symname r
plain_text op pc symname k (label l) = Fmt.hex (pos l)
plain_text op pc symname k (offset o) = []

unfoldable pub plan9_operands : ℕ → ℕ → Symname → Args → List Bytes
unfolding plain_text memory_text operands
plan9_operands op pc symname args = operands (plain_text op pc symname) memory_text 0 args

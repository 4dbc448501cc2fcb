-- ===== src/Asm/Gnu/Text.antt =====
-- The text that `GNUSyntax` prints, read off the arguments with no array and no removal.
pub mod Printed
use power.Base.{
  ℕ, zero, suc, ◌+◌, ◌-◌, ◌/◌, ◌%◌, ◌^◌, ℤ, pos, negsuc, Bool, ◌&&◌, Bytes, codes, List, [], ◌∷◌,
  ◌++◌, Option, none, some, leb, ltb, ◌==◌, if◌then◌else◌,
}
use power.Fmt
use power.Strings
use power.Asm.Inst.{
  Arg, Args, Inst, reg, cond_reg, sp_reg, pc_rel, label, imm, offset, r0, reg_string,
}
use power.Asm.Opstr
use power.Asm.LoadStore.{is_load_store_op}
use power.Asm.Operands.{operands}

-- The four bits of a condition field.
unfoldable pub bit_name : ℕ → Bytes
bit_name zero = codes "lt"
bit_name (suc zero) = codes "gt"
bit_name (suc (suc zero)) = codes "eq"
bit_name (suc (suc (suc n))) = codes "so"

-- Of a condition register: 33 to 40 are the fields, 1 to 32 the bits, four to a field.
unfoldable pub cond_text : ℕ → ℤ → Bytes
unfolding bit_name
cond_text op (negsuc v) = []
cond_text op (pos v) =
    if v == 33 && Strings.has_prefix (Opstr.op_string op) (codes "cmp")
    then []
    else if leb 33 v
    then codes "cr" ++ Fmt.decimal (pos (v - 33))
    else if leb v 4
    then bit_name ((v - 1) % 4)
    else codes "4*cr" ++ (Fmt.decimal (pos ((v - 1) / 4)) ++ (codes "+" ++ bit_name ((v - 1) % 4)))

-- An address: the offset, and the base register, where r0 stands for the number 0.
unfoldable pub memory_text : ℤ → ℕ → Bytes
memory_text o r =
    if r == r0
    then Fmt.decimal o ++ codes "(0)"
    else Fmt.decimal o ++ (codes "(r" ++ (Fmt.decimal (pos (r - 1)) ++ codes ")"))

unfoldable pub plain_text : ℕ → ℕ → Arg → Bytes
unfolding cond_text
plain_text op k (reg r) =
    if is_load_store_op op && (k == 1 && r == r0) then codes "0" else reg_string r
plain_text op k (cond_reg c) = cond_text op c
plain_text op k (imm i) = Fmt.decimal i
plain_text op k (sp_reg s) = Fmt.decimal (pos s)
plain_text op k (pc_rel r) = codes "." ++ Fmt.hex_plus r
plain_text op k (label l) = Fmt.hex (pos l)
plain_text op k (offset o) = []

-- Texts behind `buf`: `sep` in front of the first one, commas in front of the others.
unfoldable pub separated : Bytes → List Bytes → Bytes → Bytes
separated buf [] sep = buf
separated buf (t ∷ ts) sep = separated (buf ++ (sep ++ t)) ts (codes ",")

-- The mnemonic, a space, and the operands with commas between them.
unfoldable pub gnu_text : Inst → Bytes
unfolding plain_text memory_text operands separated
gnu_text inst =
    separated (Opstr.op_string inst.op) (operands (plain_text inst.op) memory_text 0 inst.args)
      (codes " ")

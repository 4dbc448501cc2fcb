-- ===== src/Asm/Gnu.antt =====
-- power64asm/gnu.go, `GNUSyntax`.
pub mod Text
pub mod Decoded
use power.Base.{
  ℕ, zero, suc, ◌+◌, ◌-◌, ◌%◌, ◌^◌, ℤ, pos, negsuc, Bool, true, false, ◌&&◌, ◌||◌, Bytes, codes,
  List, [], ◌∷◌, ◌++◌, Option, none, some, leb, ◌==◌, if◌then◌else◌, Outcome, ok, panic, message,
  type_assertion, ◌>>=◌,
}
use power.Base.Int.{sub_signed, leb_ℤ, eq_ℤ}
use power.Fmt
use power.Strings
use power.Asm.Inst.{
  Arg, Args, Inst, reg, cond_reg, sp_reg, pc_rel, label, imm, offset, r0, cond0lt, cond0so, cr0,
  reg_string, quotient, remainder, pick,
}
use power.Asm.Opstr
use power.Asm.Operands.{is_empty}
use power.Asm.LoadStore.{is_load_store_op, arg_at, remove_arg}

-- `reg - R0` in uint16.
abbrev pub reg_number : ℕ → ℤ
reg_number r = pos ((r + 2 ^ 16 - r0) % 2 ^ 16)

abbrev pub is_nil : Option Arg → Bool
is_nil none = true
is_nil (some arg) = false

-- The case of an offset behind the test that something follows; the register is the argument there.
unfoldable pub gnu_memory : Args → ℕ → ℤ → Option Arg → Outcome (Bytes × Args)
gnu_memory args k o (some (reg r)) =
    let args' = remove_arg args (k + 1) in
    if r == r0
    then ok (Fmt.decimal o ++ codes "(0)", args')
    else ok (Fmt.decimal o ++ (codes "(r" ++ (Fmt.decimal (reg_number r) ++ codes ")")), args')
gnu_memory args k o other = panic type_assertion

unfoldable pub gnu_cond : ℕ → ℤ → Outcome Bytes
unfolding pick
gnu_cond op c =
    if eq_ℤ c cr0 && Strings.has_prefix (Opstr.op_string op) (codes "cmp")
    then ok (codes "")
    else if leb_ℤ cr0 c
    then ok (codes "cr" ++ Fmt.decimal (sub_signed 8 c cr0))
    else (do
      bit ←
          pick (codes "lt" ∷ codes "gt" ∷ codes "eq" ∷ codes "so" ∷ [])
            (remainder (sub_signed 8 c cond0lt) 4)
      ok (
          if leb_ℤ c cond0so
          then bit
          else codes "4*cr"
            ++ (Fmt.decimal (quotient (sub_signed 8 c cond0lt) 4) ++ (codes "+" ++ bit))))

-- `gnuArg`: the text, and the instruction's arguments, from which an offset removes its register.
unfoldable pub gnu_arg : ℕ → Args → ℕ → Arg → Outcome (Bytes × Args)
unfolding gnu_memory gnu_cond
gnu_arg op args k (reg r) =
    ok (if is_load_store_op op && (k == 1 && r == r0) then codes "0" else reg_string r, args)
gnu_arg op args k (cond_reg c) = do text ← gnu_cond op c; ok (text, args)
gnu_arg op args k (imm i) = ok (Fmt.decimal i, args)
gnu_arg op args k (sp_reg s) = ok (Fmt.decimal (pos s), args)
gnu_arg op args k (pc_rel r) = ok (codes "." ++ Fmt.hex_plus r, args)
gnu_arg op args k (label l) = ok (Fmt.hex (pos l), args)
gnu_arg op args k (offset o) =
    if k + 1 == 5 || is_nil (arg_at args (k + 1))
    then panic (message (codes "wrong table: offset not followed by register"))
    else gnu_memory args k o (arg_at args (k + 1))

-- The loop over the arguments from index `i`, with the rounds that are left.
unfoldable pub gnu_loop : ℕ → ℕ → ℕ → Args → Bytes → Bytes → Outcome Bytes
gnu_loop op zero i args sep buf = ok buf
gnu_loop op (suc rounds) i args sep buf = elim (arg_at args i) [
  | none ↦ ok buf
  | some arg ↦ (do
    (text, args') ← gnu_arg op args i arg
    gnu_loop op rounds (i + 1) args' (if is_empty text then sep else codes ",")
        (if is_empty text then buf else buf ++ (sep ++ text)))
]

unfoldable pub gnu_syntax : Inst → Outcome Bytes
unfolding gnu_loop gnu_arg
gnu_syntax inst =
    if inst.op == 0
    then ok (codes "error: unkown instruction")
    else gnu_loop inst.op 5 0 inst.args (codes " ") (Opstr.op_string inst.op)

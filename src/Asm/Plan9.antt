-- ===== src/Asm/Plan9.antt =====
-- power64asm/plan9.go, `plan9Syntax`.
pub mod Text
pub mod Branch
pub mod Bc
pub mod Condition
pub mod Always
pub mod Decoded
use Prim.Native.String.{String}
use power.Base.{
  ℕ, zero, suc, ◌+◌, ◌-◌, ◌%◌, ◌^◌, bit_and, ℤ, pos, negsuc, Bool, true, false, ◌&&◌, ◌||◌, not,
  Bytes, codes, List, [], ◌∷◌, ◌++◌, Option, none, some, leb, ◌==◌, if◌then◌else◌, Outcome, ok,
  panic, message, index_out_of_range, type_assertion, ◌>>=◌, get_elem?,
}
use power.Base.Int.{to_unsigned, sub_signed, leb_ℤ, eq_ℤ}
use power.Fmt
use power.Strings
use power.Asm.Inst.{
  Arg, Args, Inst, reg, cond_reg, sp_reg, pc_rel, label, imm, offset, r0, r30, cond0lt, cond0so,
  cr0, reg_string, quotient, remainder, pick,
}
use power.Asm.Opstr
use power.Asm.Operands.{is_empty}
use power.Asm.LoadStore.{member, is_load_store_op, arg_at, remove_arg}
use power.Asm.Gnu.{reg_number, is_nil}
use power.Asm.Op.Part00.{
  stb, stbu, stbx, stbux, sth, sthu, sthx, sthux, stw, stwu, stwx, stwux, std, stdu, stdx, stdux,
  stq, sthbrx, stwbrx, bca, bcl, bcla, bclrl, bctar, bctarl, lbz, lbzu, lhz, lha, lhzu, lwz, lwa,
  lwzu, ld, ldu, b, bclr, bc, bcctr, bcctrl,
}
use power.Asm.Op.Part01.{cmpld, cmplw, cmpd, cmpw}
use power.Asm.Op.Part02.{mtspr, mfspr}

-- The symbol table's query: the name and the base address; an empty name for no symbol.
abbrev pub Symname : Type 0
Symname = ℕ → Bytes × ℕ

-- What stands in for a nil function.
abbrev pub no_symbols : Symname
no_symbols addr = ([], 0)

abbrev pub symname_or_default : Option Symname → Symname
symname_or_default none = no_symbols
symname_or_default (some f) = f

unfoldable pub plan9_memory : Args → ℕ → ℤ → Option Arg → Outcome (Bytes × Args)
plan9_memory args k o (some (reg r)) =
    let args' = remove_arg args (k + 1) in
    if r == r0
    then ok (Fmt.decimal o ++ codes "(0)", args')
    else ok (Fmt.decimal o ++ (codes "(R" ++ (Fmt.decimal (reg_number r) ++ codes ")")), args')
plan9_memory args k o other = panic type_assertion

unfoldable pub plan9_cond : ℕ → ℤ → Outcome Bytes
unfolding pick
plan9_cond op c =
    if eq_ℤ c cr0 && Strings.has_prefix (Opstr.op_string op) (codes "cmp")
    then ok (codes "")
    else if leb_ℤ cr0 c
    then ok (codes "CR" ++ Fmt.decimal (sub_signed 8 c cr0))
    else (do
      bit ←
          pick (codes "LT" ∷ codes "GT" ∷ codes "EQ" ∷ codes "SO" ∷ [])
            (remainder (sub_signed 8 c cond0lt) 4)
      ok (
          if leb_ℤ c cond0so
          then bit
          else codes "4*CR"
            ++ (Fmt.decimal (quotient (sub_signed 8 c cond0lt) 4) ++ (codes "+" ++ bit))))

-- A branch target: the symbol that starts there, or the address, which is computed in uint64.
unfoldable pub plan9_target : ℕ → Symname → ℤ → Bytes
plan9_target pc symname r =
    let addr = (pc + to_unsigned 64 r) % 2 ^ 64 in
    if not (is_empty (symname addr).0) && (symname addr).1 == addr
    then (symname addr).0 ++ codes "(SB)"
    else Fmt.hex (pos addr)

unfoldable pub plan9_sp_reg : ℕ → Bytes
plan9_sp_reg s =
    if s == 8
    then codes "LR"
    else if s == 9
    then codes "CTR"
    else codes "SPR(" ++ (Fmt.decimal (pos s) ++ codes ")")

unfoldable pub plan9_reg : ℕ → ℕ → ℕ → Bytes
plan9_reg op k r =
    if is_load_store_op op && (k == 1 && r == r0)
    then codes "0"
    else if r == r30
    then codes "g"
    else Strings.to_upper (reg_string r)

-- `plan9Arg`: the text, and the instruction's arguments, from which an offset removes its register.
unfoldable pub plan9_arg : ℕ → ℕ → Symname → Args → ℕ → Arg → Outcome (Bytes × Args)
unfolding plan9_memory plan9_cond plan9_target plan9_sp_reg plan9_reg
plan9_arg op pc symname args k (reg r) = ok (plan9_reg op k r, args)
plan9_arg op pc symname args k (cond_reg c) = do text ← plan9_cond op c; ok (text, args)
plan9_arg op pc symname args k (imm i) = ok (codes "$" ++ Fmt.decimal i, args)
plan9_arg op pc symname args k (sp_reg s) = ok (plan9_sp_reg s, args)
plan9_arg op pc symname args k (pc_rel r) = ok (plan9_target pc symname r, args)
plan9_arg op pc symname args k (label l) = ok (Fmt.hex (pos l), args)
plan9_arg op pc symname args k (offset o) =
    if k + 1 == 5 || is_nil (arg_at args (k + 1))
    then panic (message (codes "wrong table: offset not followed by register"))
    else plan9_memory args k o (arg_at args (k + 1))

-- The loop that collects the texts, from index `i`, with the rounds that are left. Its result is the
-- texts and the arguments after it.
module _ (op pc : ℕ) (symname : Symname) where
  unfoldable pub plan9_loop : ℕ → ℕ → Args → List Bytes → Outcome (List Bytes × Args)
  plan9_loop zero i args texts = ok (texts, args)
  plan9_loop (suc rounds) i args texts = elim (arg_at args i) [
    | none ↦ ok (texts, args)
    | some arg ↦ (do
      (text, args') ← plan9_arg op pc symname args i arg
      plan9_loop rounds (i + 1) args' (if is_empty text then texts else texts ++ (text ∷ [])))
  ]

-- revCondMap and plan9OpMap: the value of a key, the empty text where there is none.
unfoldable pub rev_cond_map : Bytes → Bytes
rev_cond_map s =
    if Strings.str_eq s (codes "LT")
    then codes "GE"
    else if Strings.str_eq s (codes "GT")
    then codes "LE"
    else if Strings.str_eq s (codes "EQ")
    then codes "NE"
    else []

abbrev plan9_ops : List (ℕ × String)
plan9_ops =
    (lbz, "MOVBZ")
    ∷ (stb, "MOVB")
    ∷ (lbzu, "MOVBZU")
    ∷ (stbu, "MOVBU")
    ∷ (lhz, "MOVHZ")
    ∷ (lha, "MOVH")
    ∷ (sth, "MOVH")
    ∷ (lhzu, "MOVHZU")
    ∷ (sthu, "MOVHU")
    ∷ (lwz, "MOVWZ")
    ∷ (lwa, "MOVW")
    ∷ (stw, "MOVW")
    ∷ (lwzu, "MOVWZU")
    ∷ (stwu, "MOVWU")
    ∷ (ld, "MOVD")
    ∷ (std, "MOVD")
    ∷ (ldu, "MOVDU")
    ∷ (stdu, "MOVDU")
    ∷ (mtspr, "MOV")
    ∷ (mfspr, "MOV")
    ∷ (b, "BR")
    ∷ (cmpld, "CMPU")
    ∷ (cmplw, "CMPWU")
    ∷ (cmpd, "CMP")
    ∷ (cmpw, "CMPW")
    ∷ []

unfoldable pub plan9_op_map : ℕ → Bytes
unfolding Opstr.element
plan9_op_map op = Opstr.element plan9_ops op

unfoldable pub plan9_op : ℕ → Bytes
plan9_op op =
    if is_empty (plan9_op_map op) then Strings.to_upper (Opstr.op_string op) else plan9_op_map op

abbrev pub store_ops : List ℕ
store_ops =
    stb ∷ stbu ∷ stbx ∷ stbux ∷ sth ∷ sthu ∷ sthx ∷ sthux ∷ stw ∷ stwu ∷ stwx ∷ stwux ∷ std ∷ stdu
    ∷ stdx ∷ stdux ∷ stq ∷ sthbrx ∷ stwbrx ∷ []

abbrev pub plain_branch_ops : List ℕ
plain_branch_ops = bca ∷ bcl ∷ bcla ∷ bclrl ∷ bctar ∷ bctarl ∷ []

-- `int(inst.Args[0].(Imm))`, as the bits that `&` reads.
unfoldable pub first_imm : Option Arg → Outcome ℕ
first_imm (some (imm i)) = ok (to_unsigned 64 i)
first_imm other = panic type_assertion

-- `args[i]`
unfoldable pub text_at : List Bytes → ℕ → Outcome Bytes
text_at texts i = elim (get_elem? texts i) [ none ↦ panic index_out_of_range | some s ↦ ok s ]

abbrev pub in_order : Bytes → List Bytes → Bytes
in_order op texts = op ++ (codes " " ++ Strings.join texts (codes ", "))

-- The default layout: the first operand, the destination, comes last.
unfoldable pub dst_last : Bytes → List Bytes → Bytes
dst_last op [] = op
dst_last op (s ∷ []) = op ++ (codes " " ++ s)
dst_last op (s ∷ t ∷ ts) = op ++ (codes " " ++ Strings.join ((t ∷ ts) ++ (s ∷ [])) (codes ", "))

-- A branch that is unconditional for some values of its first operand.
unfoldable pub or_always : Bytes → Bytes → List Bytes → Option Arg → Outcome Bytes
unfolding first_imm
or_always always op texts arg = do
  bo ← first_imm arg
  ok (if bit_and bo 20 == 20 then always else in_order op texts)

-- The case BC: where neither test holds, control leaves the switch and reaches the panic.
unfoldable pub bc_layout : List Bytes → Option Arg → Outcome Bytes
unfolding first_imm text_at rev_cond_map
bc_layout texts arg = do
  bo ← first_imm arg
  if bit_and bo 0x1c == 12
      then (do
        cond ← text_at texts 1
        target ← text_at texts 2
        ok (codes "B" ++ (cond ++ (codes " " ++ target))))
      else if bit_and bo 0x1c == 4
      then (do
        cond ← text_at texts 1
        if is_empty (rev_cond_map cond) then panic (message (codes "unreachable")) else (do
          target ← text_at texts 2
          ok (codes "B" ++ (rev_cond_map cond ++ (codes " " ++ target)))))
      else panic (message (codes "unreachable"))

-- The switch on the operation, with the texts and the first argument.
unfoldable pub layout : ℕ → List Bytes → Option Arg → Outcome Bytes
unfolding or_always bc_layout
layout op texts first =
    if member op store_ops
    then ok (in_order (plan9_op op) texts)
    else if op == bclr
    then or_always (codes "RET") (plan9_op op) texts first
    else if op == bc
    then bc_layout texts first
    else if op == bcctr
    then or_always (codes "BR (CTR)") (plan9_op op) texts first
    else if op == bcctrl
    then or_always (codes "BL (CTR)") (plan9_op op) texts first
    else if member op plain_branch_ops
    then ok (in_order (plan9_op op) texts)
    else ok (dst_last (plan9_op op) texts)

unfoldable pub plan9_syntax : Inst → ℕ → Option Symname → Outcome Bytes
unfolding plan9_loop plan9_arg layout
plan9_syntax inst pc symname = if inst.op == 0 then ok (codes "?") else (do
  (texts, args) ← plan9_loop inst.op pc (symname_or_default symname) 5 0 inst.args []
  layout inst.op texts (arg_at args 0))

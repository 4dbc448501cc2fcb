-- ===== src/Asm/Plan9/Always.antt =====
-- The branches of `plan9Syntax` that have a short form where they are always taken.
use power.Base.{
  ℕ, ◌%◌, ◌<◌, bit_and, pos, Bool, ◌&&◌, Bytes, codes, List, Option, some, leb, ◌==◌, if◌then◌else◌,
  ok, ◌≡◌, ◌⊎◌, inl, inr, refl, arith, ◌∙◌,
}
use power.Base.Int.{to_unsigned}
use power.Asm.Inst.{Inst, imm}
use power.Asm.Op.Part00.{bclr, bcctr, bcctrl}
use power.Asm.LoadStore.{arg_at, member}
use power.Asm.Decode.Inversion.{IsPrintable}
use power.Asm.Plan9.{Symname, symname_or_default, plan9_op, in_order, layout, plan9_syntax}
use power.Asm.Plan9.Text.{plan9_operands}
use power.Asm.Plan9.Text.Printed.{plan9_syntax-layout}
use power.Base.Below.{agree_below, agree_at}

-- The branches to a register, and their names where they are always taken.
abbrev pub HasAlways : ℕ → Bytes → Type 0
HasAlways op name =
    ((op ≡ bclr) × (name ≡ codes "RET"))
    ⊎ (((op ≡ bcctr) × (name ≡ codes "BR (CTR)")) ⊎ ((op ≡ bcctrl) × (name ≡ codes "BL (CTR)")))

-- The bits 16 and 4 of BO: neither the condition bit nor CTR is looked at.
abbrev pub is_always : ℕ → Bool
is_always bo = leb 16 bo && leb 4 (bo % 8)

both_bits : (bo : ℕ) → bo < 32 → (bit_and bo 20 == 20) ≡ is_always bo
unfolding agree_below
both_bits bo h = agree_at 32 (λ x. bit_and x 20 == 20) is_always bo refl h

layout-HasAlways :
    (op bo : ℕ) (name : Bytes) (texts : List Bytes)
    → HasAlways op name
    → bo < 32
    → layout op texts (some (imm (pos bo)))
      ≡ ok (if is_always bo then name else in_order (plan9_op op) texts)
unfolding layout member
layout-HasAlways op bo name texts branch small =
    let bits : to_unsigned 64 (pos bo) ≡ bo = omega arith in
    elim branch [
      | inl (op_is, name_is) ↦ rw (op_is, name_is, bits, both_bits bo small) refl
      | inr (inl (op_is, name_is)) ↦ rw (op_is, name_is, bits, both_bits bo small) refl
      | inr (inr (op_is, name_is)) ↦ rw (op_is, name_is, bits, both_bits bo small) refl
    ]

-- On a branch to a register (BCLR, BCCTR or BCCTRL) whose five arguments are in range, with a
-- register behind each offset, and start with a BO of five bits, `plan9Syntax` prints its short form
-- (RET, BR (CTR) or BL (CTR)) if BO has the bits 16 and 4, and the mnemonic with all operands in
-- their order otherwise.
pub plan9_syntax-is_always :
    (inst : Inst) (pc bo : ℕ) (symname : Option Symname) (name : Bytes)
    → HasAlways inst.op name
    → IsPrintable inst
    → arg_at inst.args 0 ≡ some (imm (pos bo))
    → bo < 32
    → plan9_syntax inst pc symname
      ≡ ok (
          if is_always bo
          then name
          else in_order
              (plan9_op inst.op)
              (plan9_operands inst.op pc (symname_or_default symname) inst.args))
plan9_syntax-is_always inst pc bo symname name branch shown first small =
    plan9_syntax-layout inst pc symname shown
    ∙ rw first (layout-HasAlways inst.op bo name _ branch small)

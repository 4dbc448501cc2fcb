-- ===== src/Asm/Plan9/Decoded.antt =====
-- `plan9Syntax` on what `Decode` returns: where it returns, and where it panics.
use power.Base.{
  ℕ, ◌≤◌, ◌<◌, ℤ, pos, Bool, true, false, ◌||◌, Bytes, codes, List, [], ◌∷◌, ◌++◌, Option, none,
  some, ◌==◌, ok, panic, Panic, message, Outcome-cases, Returns, length, ◌≡◌, ◌≢◌, refl, arith, sym,
  ap, ◌∙◌, inl, inr, Bool-cases,
}
use power.Asm.Inst.{Inst, Arg, imm}
use power.Asm.ArgField.{ArgField}
use power.Asm.ArgField.Meaning.{meaning}
use power.Asm.InstFormat.{InstFormat}
use power.Asm.Op.Part00.{bc, bclr, bcctr, bcctrl}
use power.Asm.LoadStore.{arg_at, member}
use power.Asm.Decode.{ByteOrder, Decoded, decode}
use power.Asm.Decode.Rules.{rule_ok, rule_ok→parts}
use power.Asm.Decode.Table.{inst_formats-rule_ok}
use power.Asm.Decode.Loops.{arg_meanings, instruction}
use power.Asm.Decode.Inversion.{IsPrintable, First-rule, decode_sound, decode-IsPrintable}
use power.Asm.Plan9.{Symname, symname_or_default, layout, plan9_syntax, plan9_target, bc_layout}
use power.Asm.Plan9.Text.{cond_text}
use power.Asm.Plan9.Condition.{
  Condition, Negates, condition_name, bit_condition, rev_cond_map-Negates,
}
use power.Asm.Plan9.Text.Printed.{plan9_syntax-layout}
use power.Asm.Plan9.Branch.{
  is_bc_fields, starts_with_imm, branch_ok, inst_formats-branch_ok, imm_meaning,
}
use power.Asm.Plan9.Bc.{
  bc_args, meanings-bc_args, IsShown, bc_texts, bc_operands, bc_layout_set, bc_layout_clear,
  bc_layout_panics,
}

-- The branches that look at the first operand, but BC.
abbrev is_always_op : ℕ → Bool
is_always_op op = op == bclr || (op == bcctr || op == bcctrl)

first_meaning :
    (fs : List (Option ArgField)) (ui : ℕ)
    → starts_with_imm fs ≡ true
    → (i : ℤ) × (arg_at (arg_meanings fs ui) 0 ≡ some (imm i))
unfolding starts_with_imm arg_meanings meaning
first_meaning [] ui h = cc
first_meaning (none ∷ rest) ui h = cc
first_meaning (some a ∷ rest) ui h = (_, imm_meaning a.arg_type _ _ _ h)

layout-ne-panic :
    (op : ℕ) (texts : List Bytes) (i : ℤ) (q : Panic)
    → op ≢ bc
    → layout op texts (some (imm i)) ≢ panic q
unfolding layout
layout-ne-panic op texts i q other = λ e. ground arith

layout-ne-panic_other :
    (op : ℕ) (texts : List Bytes) (first : Option Arg) (q : Panic)
    → op ≢ bc
    → is_always_op op ≡ false
    → layout op texts first ≢ panic q
unfolding layout
layout-ne-panic_other op texts first q other plain = λ e. ground arith

-- What the table says of the instruction made of a rule: the arguments of BC, and BO in front of the
-- other branches that look at it.
module _ (f : InstFormat) (ui : ℕ) (good : branch_ok f ≡ true) where
  starts_with_bo :
      is_always_op f.op ≡ true → (i : ℤ) × (arg_at (arg_meanings f.args ui) 0 ≡ some (imm i))
  unfolding branch_ok
  starts_with_bo h = first_meaning f.args ui (ground arith)

  has_bc_fields : f.op ≡ bc → is_bc_fields f.args ≡ true
  unfolding branch_ok
  has_bc_fields h = ground arith

  layout-Returns :
      (texts : List Bytes)
      → f.op ≢ bc
      → Returns (layout f.op texts (arg_at (arg_meanings f.args ui) 0))
  layout-Returns texts other =
      elim (Outcome-cases (layout f.op texts (arg_at (arg_meanings f.args ui) 0))) [
        | inl returned ↦ returned
        | inr (q, failed) ↦ absurd (elim (Bool-cases (is_always_op f.op)) [
          | inl always ↦
              let (i, e) = starts_with_bo always in
              layout-ne-panic f.op texts i q other (rw e at failed)
          | inr plain ↦ layout-ne-panic_other f.op texts _ q other plain failed
        ])
      ]

parts :
    (inst : Inst) (f : InstFormat) (ui : ℕ)
    → inst ≡ instruction f ui
    → (inst.op ≡ f.op) × (inst.args ≡ arg_meanings f.args ui)
unfolding instruction
parts inst f ui e = (ap (λ (x : Inst). x.op) e, ap (λ (x : Inst). x.args) e)

-- A conditional branch: BO of five bits, one of the 32 condition bits, and a distance.
abbrev pub IsBc : Inst → ℕ → ℕ → ℤ → Type 0
IsBc inst bo c z = (inst.op ≡ bc) × (inst.args ≡ bc_args bo c z) × (bo < 32) × (1 ≤ c) × (c ≤ 32)

module _ (inst : Inst) (pc bo c : ℕ) (symname : Option Symname) (z : ℤ)
    (branch : IsBc inst bo c z) where
  branch-IsPrintable : IsPrintable inst
  branch-IsPrintable =
      rw branch.1
        (omega (arith, branch.0), refl, (tt, ((branch.3, omega (arith, branch.4)), (tt, tt))))

  -- `plan9Syntax` is its case of the switch, on the three texts.
  bc_run :
      plan9_syntax inst pc symname
      ≡ bc_layout (bc_texts pc bo c (symname_or_default symname) z) (some (imm (pos bo)))
  unfolding layout member
  bc_run =
      plan9_syntax-layout inst pc symname branch-IsPrintable
      ∙ rw (
        branch.0,
        branch.1,
        bc_operands pc bo c (symname_or_default symname) z branch.2 branch.3 branch.4,
      )

  -- On a conditional branch with BO 12 to 15, taken if the bit is set, `plan9Syntax` prints a B, the
  -- bit's name and the target.
  pub plan9_syntax-bc_set :
      12 ≤ bo
      → bo ≤ 15
      → plan9_syntax inst pc symname
        ≡ ok (
            codes "B"
            ++ (cond_text bc (pos c)
                ++ (codes " " ++ plan9_target pc (symname_or_default symname) z)))
  plan9_syntax-bc_set h k =
      bc_run ∙ bc_layout_set pc bo c (symname_or_default symname) z branch.2 branch.3 branch.4 h k

  -- On a conditional branch with BO 4 to 7, taken if the bit is clear, whose bit is lt, gt or eq of
  -- field 0: the bit's name is that of the condition which a comparison leaves in it, and
  -- `plan9Syntax` prints a B, the name of a condition and the target, where the condition holds of
  -- the result of a comparison exactly if the bit's does not.
  pub plan9_syntax-bc_clear :
      4 ≤ bo
      → bo ≤ 7
      → c ≤ 3
      → (n : Condition) × Negates n (bit_condition c)
        × (cond_text bc (pos c) ≡ condition_name (bit_condition c))
        × (plan9_syntax inst pc symname
            ≡ ok (
                codes "B"
                ++ (condition_name n
                    ++ (codes " " ++ plan9_target pc (symname_or_default symname) z))))
  plan9_syntax-bc_clear h k l =
      let (n, negates, bit, named) = rev_cond_map-Negates bc c branch.3 l in
      (
        n,
        negates,
        bit,
        bc_run
            ∙ bc_layout_clear pc bo c (symname_or_default symname) z branch.2 branch.3 branch.4 h k
                l
            ∙ rw named refl,
      )

  -- On a conditional branch, `plan9Syntax` reaches the panic behind its switch where BO is neither 4
  -- to 7 nor 12 to 15 (as in bdnz), and where BO is 4 to 7, the branch on a clear bit, and the bit is
  -- not lt, gt or eq of field 0.
  pub plan9_syntax-bc_panics :
      ¬ IsShown bo c → plan9_syntax inst pc symname ≡ panic (message (codes "unreachable"))
  plan9_syntax-bc_panics other =
      bc_run
      ∙ bc_layout_panics pc bo c (symname_or_default symname) z branch.2 branch.3 branch.4 other

module _ (cover : Option (List Bool)) (src : Bytes) (ord : ByteOrder) (d : Decoded) where
  -- If `Decode` returns BC with no error, then the arguments are BO of five bits, one of the 32
  -- condition bits, and the distance to the target.
  pub decode-bc :
      decode cover src ord ≡ ok d
      → d.err ≡ none
      → d.inst.op ≡ bc
      → (bo : ℕ) × (c : ℕ) × (z : ℤ) × IsBc d.inst bo c z
  decode-bc run fine is_bc =
      let (ui, f, long, word, first, made) = decode_sound cover src ord d run fine in
      let (op_of, args_of) = parts d.inst f ui made in
      let good : branch_ok f ≡ true = First-rule branch_ok ui f inst_formats-branch_ok first in
      let five : length f.args ≡ 5 =
        (rule_ok→parts f (First-rule rule_ok ui f inst_formats-rule_ok first)).1 in
      let (bo, c, z, args_are, small, lo, hi) =
        meanings-bc_args f.args ui five (has_bc_fields f ui good (sym op_of ∙ is_bc)) in
      (bo, c, z, (is_bc, args_of ∙ args_are, small, lo, hi))

  -- On every instruction that `Decode` returns with no error, but BC, `plan9Syntax` returns: no index
  -- is out of range, no type assertion fails and no panic is reached.
  pub plan9_syntax-decode :
      (pc : ℕ) (symname : Option Symname)
      → decode cover src ord ≡ ok d
      → d.err ≡ none
      → d.inst.op ≢ bc
      → Returns (plan9_syntax d.inst pc symname)
  plan9_syntax-decode pc symname run fine other =
      let (ui, f, long, word, first, made) = decode_sound cover src ord d run fine in
      let (op_of, args_of) = parts d.inst f ui made in
      let good : branch_ok f ≡ true = First-rule branch_ok ui f inst_formats-branch_ok first in
      rw
        (
          plan9_syntax-layout d.inst pc symname (decode-IsPrintable cover src ord d run fine),
          op_of,
          args_of,
        )
        (layout-Returns f ui good _ (λ e. other (op_of ∙ e)))

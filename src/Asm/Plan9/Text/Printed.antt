-- ===== src/Asm/Plan9/Text/Printed.antt =====
-- `plan9Syntax` and the texts of `Plan9/Text`.
use power.Base.{
  ℕ, zero, suc, ◌+◌, ◌-◌, ◌%◌, ◌<◌, ℤ, pos, negsuc, false, Bytes, codes, List, [], ◌∷◌, ◌++◌,
  Option, none, some, leb, ◌==◌, if◌then◌else◌, Outcome, ok, Outcome-cases, Option-cases, length,
  ◌≡◌, refl, arith, ap, ◌∙◌, Bool-cases, inl, inr,
}
use power.Base.Lists.{append_snoc}
use mathlib.Core.List.{append-nil}
use power.Asm.Inst.{Arg, Args, Inst, reg, cond_reg, sp_reg, pc_rel, label, imm, offset, pick}
use power.Asm.LoadStore.{arg_at}
use power.Asm.LoadStore.Remove.{arg_at_next, remove_arg_behind, next_inside}
use power.Asm.LoadStore.Head.{remove_arg-head}
use power.Asm.Printable.{IsReg, IsCond, IsArg, IsPlain, field_number, bit_number, reg_number-pred}
use power.Asm.Operands.{is_empty, cons_text, walk}
use power.Asm.Operands.Walk.{walk-operands}
use power.Asm.Decode.Inversion.{IsPrintable}
use power.Asm.Plan9.{
  Symname, symname_or_default, plan9_cond, plan9_memory, plan9_arg, plan9_loop, layout,
  plan9_syntax,
}
use power.Asm.Plan9.Text.{bit_name, cond_text, memory_text, plain_text, plan9_operands}

pick-bit_name :
    (n : ℕ)
    → n < 4
    → pick (codes "LT" ∷ codes "GT" ∷ codes "EQ" ∷ codes "SO" ∷ []) (pos n) ≡ ok (bit_name n)
unfolding pick bit_name
pick-bit_name zero h = refl
pick-bit_name (suc zero) h = refl
pick-bit_name (suc (suc zero)) h = refl
pick-bit_name (suc (suc (suc zero))) h = refl
pick-bit_name (suc (suc (suc (suc n)))) h = absurd (omega arith)

plan9_cond-text : (op : ℕ) (c : ℤ) → IsCond c → plan9_cond op c ≡ ok (cond_text op c)
unfolding plan9_cond cond_text
plan9_cond-text op (negsuc v) h = absurd h
plan9_cond-text op (pos v) h = elim (Bool-cases (leb 33 v)) [
  | inl field ↦ rw (field_number v (ground arith) h.1) (ground arith)
  | inr bit ↦ rw (bit_number v h.0 h.1, pick-bit_name ((v - 1) % 4) (omega arith)) (ground arith)
]

second :
    {t u : Bytes} {a b : Args} → ◌≡◌ {A = Outcome (Bytes × Args)} (ok (t, a)) (ok (u, b)) → b ≡ a
second e = cc

append-cons_text :
    (t : Bytes) (before ts : List Bytes)
    → (if is_empty t then before else before ++ (t ∷ [])) ++ ts ≡ before ++ cons_text t ts
append-cons_text [] before ts = refl
append-cons_text (c ∷ t) before ts = append_snoc before (c ∷ t) ts

texts_eq : {a b : List Bytes} → ok a ≡ ok b → a ≡ b
texts_eq e = cc

module _ (op pc : ℕ) (symname : Symname) where
  plain_step :
      (args rest : Args) (k : ℕ) (arg : Arg)
      → IsArg arg rest
      → IsPlain arg
      → plan9_arg op pc symname args k arg ≡ ok (plain_text op pc symname k arg, args)
  unfolding plan9_arg plain_text
  plain_step args rest k (reg r) h plain = refl
  plain_step args rest k (cond_reg c) h plain = rw (plan9_cond-text op c h)
  plain_step args rest k (sp_reg s) h plain = refl
  plain_step args rest k (pc_rel r) h plain = refl
  plain_step args rest k (label l) h plain = refl
  plain_step args rest k (imm i) h plain = refl
  plain_step args rest k (offset o) h plain = absurd plain

  -- The first argument stays, whichever argument is printed.
  plan9_arg-head :
      (args args' : Args) (k : ℕ) (arg : Arg) (t : Bytes)
      → plan9_arg op pc symname args k arg ≡ ok (t, args')
      → arg_at args' 0 ≡ arg_at args 0
  unfolding plan9_arg plan9_memory
  plan9_arg-head args args' k (reg r) t e = ap (λ (x : Args). arg_at x 0) (second e)
  plan9_arg-head args args' k (cond_reg c) t e = elim (Outcome-cases (plan9_cond op c)) [
    | inl (s, f) ↦ ap (λ (x : Args). arg_at x 0) (second (rw f at e))
    | inr (q, f) ↦ absurd (cc (rw f at e))
  ]
  plan9_arg-head args args' k (sp_reg s) t e = ap (λ (x : Args). arg_at x 0) (second e)
  plan9_arg-head args args' k (pc_rel r) t e = ap (λ (x : Args). arg_at x 0) (second e)
  plan9_arg-head args args' k (label l) t e = ap (λ (x : Args). arg_at x 0) (second e)
  plan9_arg-head args args' k (imm i) t e = ap (λ (x : Args). arg_at x 0) (second e)
  plan9_arg-head args args' k (offset o) t e = ground (arith, remove_arg-head args k)

  offset_step :
      (front rest : Args) (o : ℤ) (r : ℕ)
      → IsReg r
      → length (front ++ (some (offset o) ∷ some (reg r) ∷ rest)) ≡ 5
      → plan9_arg op pc symname
          (front ++ (some (offset o) ∷ some (reg r) ∷ rest))
          (length front)
          (offset o)
        ≡ ok (memory_text o r, front ++ (some (offset o) ∷ (rest ++ (none ∷ []))))
  unfolding plan9_arg plan9_memory memory_text
  offset_step front rest o r h five =
      rw
        (
          next_inside front rest (some (offset o)) (some (reg r)) five,
          arg_at_next front rest (some (offset o)) (some (reg r)),
          remove_arg_behind front rest (some (offset o)) (some (reg r)) five,
          reg_number-pred r h,
        )
        (ground arith)

  -- The loop appends what the walk collects, and keeps the first argument.
  plan9_loop-walk :
      (rounds i : ℕ) (args : Args) (before texts : List Bytes)
      → walk (plan9_arg op pc symname) rounds i args ≡ ok texts
      → (args' : Args) × (plan9_loop op pc symname rounds i args before
          ≡ ok (before ++ texts, args'))
        × (arg_at args' 0 ≡ arg_at args 0)
  unfolding walk plan9_loop
  plan9_loop-walk zero i args before texts e = (args, rw (← texts_eq e, append-nil), refl)
  plan9_loop-walk (suc rounds) i args before texts e = elim (Option-cases (arg_at args i)) [
    | inl stop ↦
        let none_left : [] ≡ texts = texts_eq (rw (walk, stop) at e) in
        (args, rw (← none_left, append-nil, plan9_loop, stop), refl)
    | inr (arg, f) ↦ elim (Outcome-cases (plan9_arg op pc symname args i arg)) [
      | inr (q, g) ↦ absurd (cc (rw (walk, f, g) at e))
      | inl ((t, args'), g) ↦
          elim (Outcome-cases (walk (plan9_arg op pc symname) rounds (i + 1) args')) [
            | inr (q, h) ↦ absurd (cc (rw (walk, f, g, h) at e))
            | inl (ts, h) ↦
                let all_texts : cons_text t ts ≡ texts = texts_eq (rw (walk, f, g, h) at e) in
                let (last, run, kept) =
                  plan9_loop-walk rounds (i + 1) args'
                    (if is_empty t then before else before ++ (t ∷ [])) ts h in
                (
                  last,
                  rw (plan9_loop, f, g, ← all_texts, ← append-cons_text t before ts) run,
                  kept ∙ plan9_arg-head args args' i arg t g,
                )
          ]
    ]
  ]

-- If an instruction has an operation, and its five arguments are in range with a register behind
-- each offset, `plan9Syntax` is its switch on the operation, on the operands' texts from left to
-- right and the first argument: the loop, which takes registers out of the array, does not panic.
pub plan9_syntax-layout :
    (inst : Inst) (pc : ℕ) (symname : Option Symname)
    → IsPrintable inst
    → plan9_syntax inst pc symname
      ≡ layout inst.op
          (plan9_operands inst.op pc (symname_or_default symname) inst.args)
          (arg_at inst.args 0)
unfolding plan9_syntax plan9_operands
plan9_syntax-layout inst pc symname (h, five, p) =
    let known : (inst.op == 0) ≡ false = ground arith in
    let look : Symname = symname_or_default symname in
    let (last, run, kept) = plan9_loop-walk inst.op pc look 5 0 inst.args [] _ (
      walk-operands (plan9_arg inst.op pc look) (plain_text inst.op pc look) memory_text
        (plain_step inst.op pc look) (offset_step inst.op pc look) inst.args five p) in
    rw (known, run, kept)

-- ===== src/Asm/Gnu/Text/Printed.antt =====
-- `GNUSyntax` and the text of `Gnu/Text`.
use power.Base.{
  ℕ, zero, suc, ◌+◌, ◌-◌, ◌%◌, ◌<◌, ℤ, pos, negsuc, false, Bytes, codes, List, [], ◌∷◌, ◌++◌, none,
  some, leb, ◌==◌, if◌then◌else◌, ok, Outcome-cases, Option-cases, ◌>>=◌, length, ◌≡◌, refl, arith,
  ap, Bool-cases, inl, inr,
}
use power.Asm.Inst.{Arg, Args, Inst, reg, cond_reg, sp_reg, pc_rel, label, imm, offset, pick}
use power.Asm.LoadStore.{arg_at}
use power.Asm.LoadStore.Remove.{arg_at_next, remove_arg_behind, next_inside}
use power.Asm.Printable.{
  IsReg, IsCond, IsArg, IsPlain, Printable, field_number, bit_number, reg_number-pred,
}
use power.Asm.Gnu.{gnu_cond, gnu_memory, gnu_arg, gnu_loop, gnu_syntax}
use power.Asm.Operands.{is_empty, cons_text, walk}
use power.Asm.Operands.Walk.{walk-operands}
use power.Asm.Gnu.Text.{bit_name, cond_text, memory_text, plain_text, separated, gnu_text}

pick-bit_name :
    (n : ℕ)
    → n < 4
    → pick (codes "lt" ∷ codes "gt" ∷ codes "eq" ∷ codes "so" ∷ []) (pos n) ≡ ok (bit_name n)
unfolding pick bit_name
pick-bit_name zero h = refl
pick-bit_name (suc zero) h = refl
pick-bit_name (suc (suc zero)) h = refl
pick-bit_name (suc (suc (suc zero))) h = refl
pick-bit_name (suc (suc (suc (suc n)))) h = absurd (omega arith)

gnu_cond-text : (op : ℕ) (c : ℤ) → IsCond c → gnu_cond op c ≡ ok (cond_text op c)
unfolding gnu_cond cond_text
gnu_cond-text op (negsuc v) h = absurd h
gnu_cond-text op (pos v) h = elim (Bool-cases (leb 33 v)) [
  | inl field ↦ rw (field_number v (ground arith) h.1) (ground arith)
  | inr bit ↦ rw (bit_number v h.0 h.1, pick-bit_name ((v - 1) % 4) (omega arith)) (ground arith)
]

separated-cons_text :
    (t buf sep : Bytes) (ts : List Bytes)
    → separated
        (if is_empty t then buf else buf ++ (sep ++ t))
        ts
        (if is_empty t then sep else codes ",")
      ≡ separated buf (cons_text t ts) sep
unfolding separated
separated-cons_text [] buf sep ts = refl
separated-cons_text (c ∷ t) buf sep ts = refl

module _ (op : ℕ) where
  offset_step :
      (front rest : Args) (o : ℤ) (r : ℕ)
      → IsReg r
      → length (front ++ (some (offset o) ∷ some (reg r) ∷ rest)) ≡ 5
      → gnu_arg op (front ++ (some (offset o) ∷ some (reg r) ∷ rest)) (length front) (offset o)
        ≡ ok (memory_text o r, front ++ (some (offset o) ∷ (rest ++ (none ∷ []))))
  unfolding gnu_arg gnu_memory memory_text
  offset_step front rest o r h five =
      rw
        (
          next_inside front rest (some (offset o)) (some (reg r)) five,
          arg_at_next front rest (some (offset o)) (some (reg r)),
          remove_arg_behind front rest (some (offset o)) (some (reg r)) five,
          reg_number-pred r h,
        )
        (ground arith)

  -- An argument that is no offset leaves the array alone.
  plain_step :
      (args rest : Args) (k : ℕ) (arg : Arg)
      → IsArg arg rest
      → IsPlain arg
      → gnu_arg op args k arg ≡ ok (plain_text op k arg, args)
  unfolding gnu_arg plain_text
  plain_step args rest k (reg r) h plain = refl
  plain_step args rest k (cond_reg c) h plain = rw (gnu_cond-text op c h)
  plain_step args rest k (sp_reg s) h plain = refl
  plain_step args rest k (pc_rel r) h plain = refl
  plain_step args rest k (label l) h plain = refl
  plain_step args rest k (imm i) h plain = refl
  plain_step args rest k (offset o) h plain = absurd plain

  -- The loop prints what the walk collects.
  gnu_loop-walk :
      (rounds i : ℕ) (args : Args) (sep buf : Bytes)
      → gnu_loop op rounds i args sep buf
        ≡ (walk (gnu_arg op) rounds i args >>= λ ts. ok (separated buf ts sep))
  unfolding walk gnu_loop
  gnu_loop-walk zero i args sep buf = unfold separated in refl
  gnu_loop-walk (suc rounds) i args sep buf = elim (Option-cases (arg_at args i)) [
    | inl stop ↦ unfold separated in rw (gnu_loop, walk, stop)
    | inr (arg, e) ↦ elim (Outcome-cases (gnu_arg op args i arg)) [
      | inr (q, f) ↦ rw (gnu_loop, walk, e, f)
      | inl ((t, args'), f) ↦
          rw (gnu_loop, walk, e, f, gnu_loop-walk rounds (i + 1) args')
            (elim (Outcome-cases (walk (gnu_arg op) rounds (i + 1) args')) [
              | inr (q, g) ↦ rw g
              | inl (ts, g) ↦ rw g (ap ok (separated-cons_text t buf sep ts))
            ])
    ]
  ]

-- If an instruction has an operation, and its five arguments are in range with a register behind
-- each offset, `GNUSyntax` prints the mnemonic and the operands, with no panic: the array from which
-- it takes registers out while it walks is read as the operands from left to right.
pub gnu_syntax-gnu_text :
    (inst : Inst)
    → 0 < inst.op
    → length inst.args ≡ 5
    → Printable inst.args
    → gnu_syntax inst ≡ ok (gnu_text inst)
unfolding gnu_syntax gnu_text
gnu_syntax-gnu_text inst h five p =
    let known : (inst.op == 0) ≡ false = ground arith in
    let texts : walk (gnu_arg inst.op) 5 0 inst.args ≡ _ =
      walk-operands (gnu_arg inst.op) (plain_text inst.op) memory_text (plain_step inst.op)
        (offset_step inst.op) inst.args five p in
    rw (known, gnu_loop-walk, texts)

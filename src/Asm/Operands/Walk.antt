-- ===== src/Asm/Operands/Walk.antt =====
-- The walk over the array, and the operands from left to right.
use power.Base.{
  ℕ, zero, suc, ◌+◌, ℤ, Bytes, List, [], ◌∷◌, ◌++◌, Option, none, some, Outcome, ok, length, ◌≡◌,
  refl, arith, ap, ◌∙◌,
}
use power.Base.Lists.{length-append, length-snoc, append_snoc}
use power.Asm.Inst.{Arg, Args, reg, cond_reg, sp_reg, pc_rel, label, imm, offset}
use power.Asm.LoadStore.Remove.{arg_at_end}
use power.Asm.Printable.{IsReg, IsArg, IsPlain, Printable, Printable-snoc}
use power.Asm.Operands.{cons_text, operands, walk}

module _ (plain : ℕ → Arg → Bytes) (memory : ℤ → ℕ → Bytes) where
  operands-snoc :
      (k : ℕ) (args : Args)
      → operands plain memory k (args ++ (none ∷ [])) ≡ operands plain memory k args
  unfolding operands
  operands-snoc k [] = refl
  operands-snoc k (none ∷ rest) = refl
  operands-snoc k (some (offset o) ∷ some (reg r) ∷ rest) =
      ap (cons_text (memory o r)) (operands-snoc (k + 1) rest)
  operands-snoc k (some (reg r) ∷ rest) =
      ap (cons_text (plain k (reg r))) (operands-snoc (k + 1) rest)
  operands-snoc k (some (cond_reg c) ∷ rest) =
      ap (cons_text (plain k (cond_reg c))) (operands-snoc (k + 1) rest)
  operands-snoc k (some (sp_reg s) ∷ rest) =
      ap (cons_text (plain k (sp_reg s))) (operands-snoc (k + 1) rest)
  operands-snoc k (some (pc_rel r) ∷ rest) =
      ap (cons_text (plain k (pc_rel r))) (operands-snoc (k + 1) rest)
  operands-snoc k (some (label l) ∷ rest) =
      ap (cons_text (plain k (label l))) (operands-snoc (k + 1) rest)
  operands-snoc k (some (imm i) ∷ rest) =
      ap (cons_text (plain k (imm i))) (operands-snoc (k + 1) rest)
  operands-snoc k (some (offset o) ∷ rest) = refl

still_five :
    (front rest : Args) (x : Option Arg)
    → length (front ++ (x ∷ rest)) ≡ 5
    → length ((front ++ (x ∷ [])) ++ rest) ≡ 5
still_five front rest x five = rw (append_snoc front x rest) five

-- A removal makes room for a nil at the end.
five_again :
    (front rest : Args) (x y : Option Arg)
    → length (front ++ (x ∷ y ∷ rest)) ≡ 5
    → length ((front ++ (x ∷ [])) ++ (rest ++ (none ∷ []))) ≡ 5
five_again front rest x y five = omega (
  arith,
  length-append front (x ∷ y ∷ rest),
  length-append (front ++ (x ∷ [])) (rest ++ (none ∷ [])),
  length-snoc front x,
  length-snoc rest none,
)

module _ (step : Args → ℕ → Arg → Outcome (Bytes × Args)) where
  -- One round on the argument behind `front`, where the rest of the array becomes `rest'`.
  round :
      (rounds : ℕ) (front rest rest' : Args) (arg : Arg) (text : Bytes) (texts : ℕ → List Bytes)
      → step (front ++ (some arg ∷ rest)) (length front) arg
        ≡ ok (text, front ++ (some arg ∷ rest'))
      → walk step rounds (length (front ++ (some arg ∷ []))) ((front ++ (some arg ∷ [])) ++ rest')
        ≡ ok (texts (length (front ++ (some arg ∷ []))))
      → walk step (suc rounds) (length front) (front ++ (some arg ∷ rest))
        ≡ ok (cons_text text (texts (length front + 1)))
  unfolding walk
  round rounds front rest rest' arg text texts e ih =
      let next : walk step rounds (length front + 1) (front ++ (some arg ∷ rest'))
          ≡ ok (texts (length front + 1)) =
        rw (length-snoc front (some arg), append_snoc front (some arg) rest') at ih in
      rw (walk, arg_at_end front rest (some arg), e, next)

-- What is asked of the printer of one argument: an argument that is no offset leaves the array alone,
-- and an offset takes the register behind it out.
module _ (step : Args → ℕ → Arg → Outcome (Bytes × Args)) (plain : ℕ → Arg → Bytes)
    (memory : ℤ → ℕ → Bytes)
    (on_plain : (args rest : Args) (k : ℕ) (arg : Arg)
      → IsArg arg rest
      → IsPlain arg
      → step args k arg ≡ ok (plain k arg, args))
    (on_offset : (front rest : Args) (o : ℤ) (r : ℕ)
      → IsReg r
      → length (front ++ (some (offset o) ∷ some (reg r) ∷ rest)) ≡ 5
      → step (front ++ (some (offset o) ∷ some (reg r) ∷ rest)) (length front) (offset o)
        ≡ ok (memory o r, front ++ (some (offset o) ∷ (rest ++ (none ∷ []))))) where
  walk_from :
      (rounds : ℕ) (front args : Args)
      → length args ≡ rounds
      → length (front ++ args) ≡ 5
      → Printable args
      → walk step rounds (length front) (front ++ args)
        ≡ ok (operands plain memory (length front) args)
  unfolding operands
  walk_from zero front [] e five p = unfold walk in refl
  walk_from zero front (x ∷ args) e five p = absurd (omega arith)
  walk_from (suc rounds) front [] e five p = absurd (omega arith)
  walk_from (suc rounds) front (none ∷ rest) e five p =
      unfold walk in rw (walk, arg_at_end front rest none)
  walk_from (suc rounds) front (some (reg r) ∷ rest) e five p =
      round step rounds front rest rest (reg r) _ (λ k. operands plain memory k rest)
        (on_plain _ rest _ (reg r) p.0 tt)
        (walk_from rounds (front ++ (some (reg r) ∷ [])) rest (omega arith)
          (still_five front rest _ five) p.1)
  walk_from (suc rounds) front (some (cond_reg c) ∷ rest) e five p =
      round step rounds front rest rest (cond_reg c) _ (λ k. operands plain memory k rest)
        (on_plain _ rest _ (cond_reg c) p.0 tt)
        (walk_from rounds (front ++ (some (cond_reg c) ∷ [])) rest (omega arith)
          (still_five front rest _ five) p.1)
  walk_from (suc rounds) front (some (sp_reg s) ∷ rest) e five p =
      round step rounds front rest rest (sp_reg s) _ (λ k. operands plain memory k rest)
        (on_plain _ rest _ (sp_reg s) p.0 tt)
        (walk_from rounds (front ++ (some (sp_reg s) ∷ [])) rest (omega arith)
          (still_five front rest _ five) p.1)
  walk_from (suc rounds) front (some (pc_rel r) ∷ rest) e five p =
      round step rounds front rest rest (pc_rel r) _ (λ k. operands plain memory k rest)
        (on_plain _ rest _ (pc_rel r) p.0 tt)
        (walk_from rounds (front ++ (some (pc_rel r) ∷ [])) rest (omega arith)
          (still_five front rest _ five) p.1)
  walk_from (suc rounds) front (some (label l) ∷ rest) e five p =
      round step rounds front rest rest (label l) _ (λ k. operands plain memory k rest)
        (on_plain _ rest _ (label l) p.0 tt)
        (walk_from rounds (front ++ (some (label l) ∷ [])) rest (omega arith)
          (still_five front rest _ five) p.1)
  walk_from (suc rounds) front (some (imm i) ∷ rest) e five p =
      round step rounds front rest rest (imm i) _ (λ k. operands plain memory k rest)
        (on_plain _ rest _ (imm i) p.0 tt)
        (walk_from rounds (front ++ (some (imm i) ∷ [])) rest (omega arith)
          (still_five front rest _ five) p.1)
  walk_from (suc rounds) front (some (offset o) ∷ some (reg r) ∷ rest) e five p =
      round step rounds front (some (reg r) ∷ rest) (rest ++ (none ∷ [])) (offset o) (memory o r)
        (λ k. operands plain memory k (rest ++ (none ∷ []))) (on_offset front rest o r p.0 five)
        (walk_from rounds (front ++ (some (offset o) ∷ [])) (rest ++ (none ∷ []))
          (omega (arith, length-snoc rest none))
          (five_again front rest (some (offset o)) (some (reg r)) five) (Printable-snoc rest p.1.1))
      ∙ ap (λ (ts : List Bytes). ok (cons_text (memory o r) ts))
          (operands-snoc plain memory (length front + 1) rest)
  walk_from (suc rounds) front (some (offset o) ∷ rest) e five p = absurd p.0

  pub walk-operands :
      (args : Args)
      → length args ≡ 5
      → Printable args
      → walk step 5 0 args ≡ ok (operands plain memory 0 args)
  walk-operands args five p = walk_from 5 [] args five five p

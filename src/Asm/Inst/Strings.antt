-- ===== src/Asm/Inst/Strings.antt =====
-- power64asm/inst.go: the `String` methods and their panics.
use power.Base.{
  ℕ, zero, suc, ◌+◌, ◌-◌, ◌%◌, ◌≤◌, ◌<◌, ℤ, pos, negsuc, Bytes, codes, [], ◌∷◌, none, some, leb,
  Returns, ◌≡◌, refl, arith, Bool-cases, inl, inr,
}
use power.Base.Int.{sub_signed}
use power.Asm.Inst.{
  Inst, Args, Arg, reg, cond_reg, sp_reg, pc_rel, label, imm, offset, cond0lt, pick,
  cond_reg_string, arg_string, inst_string_loop, inst_string,
}

-- The name of one of the four bits is in the array.
pick-Returns : (a b c d : Bytes) (n : ℕ) → n < 4 → Returns (pick (a ∷ b ∷ c ∷ d ∷ []) (pos n))
unfolding pick
pick-Returns a b c d zero h = (a, refl)
pick-Returns a b c d (suc zero) h = (b, refl)
pick-Returns a b c d (suc (suc zero)) h = (c, refl)
pick-Returns a b c d (suc (suc (suc zero))) h = (d, refl)
pick-Returns a b c d (suc (suc (suc (suc n)))) h = absurd (omega arith)

bit_index : (v : ℕ) → 1 ≤ v → v ≤ 32 → sub_signed 8 (pos v) cond0lt ≡ pos (v - 1)
bit_index v lo hi = ground arith

pub cond_reg_string-Returns : (c : ℤ) → Returns (cond_reg_string c)
unfolding cond_reg_string
cond_reg_string-Returns (negsuc v) = (_, refl)
cond_reg_string-Returns (pos v) = elim (Bool-cases (leb 33 v)) [
  | inl field ↦ rw field (_, refl)
  | inr bit ↦ elim (Bool-cases (leb 1 v)) [
    | inr nothing ↦ rw (bit, nothing) (_, refl)
    | inl some_bit ↦
        let (text, found) =
          pick-Returns (codes "LT") (codes "GT") (codes "EQ") (codes "SO") ((v - 1) % 4)
            (omega arith) in
        rw (bit, some_bit, bit_index v (ground arith) (ground arith), found) (_, refl)
  ]
]

arg_string-Returns : (a : Arg) → Returns (arg_string a)
unfolding arg_string
arg_string-Returns (reg r) = (_, refl)
arg_string-Returns (cond_reg c) = cond_reg_string-Returns c
arg_string-Returns (sp_reg s) = (_, refl)
arg_string-Returns (pc_rel r) = (_, refl)
arg_string-Returns (label l) = (_, refl)
arg_string-Returns (imm i) = (_, refl)
arg_string-Returns (offset o) = (_, refl)

inst_string_loop-Returns :
    (args : Args) (j : ℕ) (buf : Bytes) → Returns (inst_string_loop args j buf)
unfolding inst_string_loop
inst_string_loop-Returns [] j buf = (buf, refl)
inst_string_loop-Returns (none ∷ rest) j buf = (buf, refl)
inst_string_loop-Returns (some arg ∷ rest) j buf =
    let (text, printed) = arg_string-Returns arg in
    rw printed (inst_string_loop-Returns rest (j + 1) _)

-- `Inst.String` returns on every instruction, with no panic: whatever the value of a condition
-- register, the index of its bit's name is in the array.
pub inst_string-Returns : (i : Inst) → Returns (inst_string i)
unfolding inst_string
inst_string-Returns i = inst_string_loop-Returns i.args 0 _

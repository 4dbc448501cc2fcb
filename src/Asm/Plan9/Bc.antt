-- ===== src/Asm/Plan9/Bc.antt =====
-- The case BC of `plan9Syntax`: which conditions it prints.
use power.Base.{
  ℕ, zero, suc, ◌+◌, ◌-◌, ◌*◌, ◌/◌, ◌%◌, ◌^◌, ◌≤◌, ◌<◌, bit_and, ℤ, pos, Bool, true, false, not,
  ◌&&◌, &&-true, Bytes, codes, List, [], ◌∷◌, ◌++◌, Option, none, some, leb, ◌==◌, if◌then◌else◌,
  ok, panic, message, Returns, ◌≡◌, ◌⊎◌, refl, arith, Bool-cases, inl, inr, length,
}
use power.Base.Below.{agree_below, agree_at}
use power.Base.Int.{to_unsigned}
use power.Strings
use power.Fmt
use power.Asm.Inst.{Args, imm, cond_reg, pc_rel}
use power.Asm.BitFields.Value.{width, joined}
use power.Asm.ArgField.{ArgField}
use power.Asm.ArgField.Meaning.{meaning}
use power.Asm.Decode.Loops.{arg_meanings}
use power.Asm.Op.Part00.{bc}
use power.Asm.Operands.{is_empty}
use power.Asm.Plan9.{Symname, plan9_target, rev_cond_map, bc_layout}
use power.Asm.Plan9.Text.{cond_text, bit_name, plan9_operands}
use power.Asm.Plan9.Branch.{
  is_imm_type, is_cond_type, is_five_bits, is_bc_fields, imm_meaning, cond_meaning, target_meaning,
  five_bits,
}

-- The arguments of a conditional branch: BO, a condition bit, and the distance to the target.
abbrev pub bc_args : ℕ → ℕ → ℤ → Args
bc_args bo c z = some (imm (pos bo)) ∷ some (cond_reg (pos c)) ∷ some (pc_rel z) ∷ none ∷ none ∷ []

pub meanings-bc_args :
    (fs : List (Option ArgField)) (ui : ℕ)
    → length fs ≡ 5
    → is_bc_fields fs ≡ true
    → (bo : ℕ) × (c : ℕ) × (z : ℤ) × (arg_meanings fs ui ≡ bc_args bo c z)
      × (bo < 32)
      × (1 ≤ c)
      × (c ≤ 32)
unfolding is_bc_fields arg_meanings meaning
meanings-bc_args (some a ∷ some b ∷ some t ∷ none ∷ x ∷ []) ui five h =
    let (first, others) = &&-true (is_imm_type a.arg_type && is_five_bits a) _ h in
    let (second, third) = &&-true (is_cond_type b.arg_type && is_five_bits b) _ others in
    let (ti, wi) = &&-true (is_imm_type a.arg_type) _ first in
    let (tc, wc) = &&-true (is_cond_type b.arg_type) _ second in
    let (bo_small, unscaled) = five_bits a ui wi in
    let (c_small, _) = five_bits b ui wc in
    let (z, target) =
      target_meaning t.arg_type t.shift (width t.bit_fields) (joined 0 t.bit_fields ui) third in
    let bo : ℕ = joined 0 a.bit_fields ui in
    let same : bo * 2 ^ a.shift ≡ bo = rw unscaled (omega arith) in
    (
      bo,
      1 + joined 0 b.bit_fields ui,
      z,
      rw (
        imm_meaning a.arg_type a.shift (width a.bit_fields) bo ti,
        same,
        cond_meaning b.arg_type b.shift (width b.bit_fields) (joined 0 b.bit_fields ui) tc,
        target,
      ),
      bo_small,
      omega arith,
      omega arith,
    )
meanings-bc_args fs ui five h = absurd (ground arith)

-- BO & 0x1c is 12 for 12 to 15, and 4 for 4 to 7.
on_set : (bo : ℕ) → bo < 32 → (bit_and bo 0x1c == 12) ≡ (leb 12 bo && leb bo 15)
unfolding agree_below
on_set bo h = agree_at 32 (λ x. bit_and x 0x1c == 12) (λ x. leb 12 x && leb x 15) bo refl h

on_clear : (bo : ℕ) → bo < 32 → (bit_and bo 0x1c == 4) ≡ (leb 4 bo && leb bo 7)
unfolding agree_below
on_clear bo h = agree_at 32 (λ x. bit_and x 0x1c == 4) (λ x. leb 4 x && leb x 7) bo refl h

-- The name of a condition bit: of field 0, or of another field.
near_text : (op c : ℕ) → 1 ≤ c → c ≤ 4 → cond_text op (pos c) ≡ bit_name (c - 1)
unfolding cond_text
near_text op c h k = let small : (c - 1) % 4 ≡ c - 1 = omega arith in rw small (ground arith)

far_text : (op c : ℕ) → 5 ≤ c → c ≤ 32 → (rest : Bytes) × (cond_text op (pos c) ≡ b'4' ∷ rest)
unfolding cond_text
far_text op c h k = (
  codes "*CR" ++ (Fmt.decimal (pos ((c - 1) / 4)) ++ (codes "+" ++ bit_name ((c - 1) % 4))),
  ground arith,
)

-- Of the 32 condition bits only lt, gt and eq of field 0 have an inverse.
rev_cond_text :
    (op c : ℕ) → 1 ≤ c → c ≤ 32 → is_empty (rev_cond_map (cond_text op (pos c))) ≡ leb 4 c
unfolding rev_cond_map cond_text Strings.str_eq bit_name
rev_cond_text op zero h k = absurd (omega arith)
rev_cond_text op (suc zero) h k = refl
rev_cond_text op (suc (suc zero)) h k = refl
rev_cond_text op (suc (suc (suc zero))) h k = refl
rev_cond_text op (suc (suc (suc (suc zero)))) h k = refl
rev_cond_text op (suc (suc (suc (suc (suc n))))) h k =
    let (rest, far) = far_text op (suc (suc (suc (suc (suc n))))) (omega arith) k in
    rw far (ground arith)

bit_name_some : (n : ℕ) → is_empty (bit_name n) ≡ false
unfolding bit_name
bit_name_some zero = refl
bit_name_some (suc zero) = refl
bit_name_some (suc (suc zero)) = refl
bit_name_some (suc (suc (suc n))) = refl

cond_text_some : (op c : ℕ) → 1 ≤ c → c ≤ 32 → is_empty (cond_text op (pos c)) ≡ false
cond_text_some op c h k = elim (Bool-cases (leb c 4)) [
  | inl near ↦ rw (near_text op c h (ground arith)) (bit_name_some (c - 1))
  | inr far ↦ let (rest, e) = far_text op c (ground arith) k in rw e
]

if_some :
    (b : Bool) (s t : Bytes)
    → is_empty s ≡ false
    → is_empty t ≡ false
    → is_empty (if b then s else t) ≡ false
if_some true s t h k = h
if_some false s t h k = k

append_some : (s : Bytes) (c : ℕ) (t : Bytes) → is_empty (s ++ (c ∷ t)) ≡ false
append_some [] c t = refl
append_some (d ∷ s) c t = refl

target_some : (pc : ℕ) (symname : Symname) (z : ℤ) → is_empty (plan9_target pc symname z) ≡ false
unfolding plan9_target Fmt.hex
target_some pc symname z =
    let addr : ℕ = (pc + to_unsigned 64 z) % 2 ^ 64 in
    if_some (not (is_empty (symname addr).0) && (symname addr).1 == addr)
      ((symname addr).0 ++ codes "(SB)") (Fmt.hex (pos addr))
      (append_some (symname addr).0 b'(' (codes "SB)")) refl

-- A branch on a condition bit is printed if it is taken on the bit (BO 12 to 15), or if it is taken
-- on the clear bit (BO 4 to 7) and the bit is lt, gt or eq of field 0.
abbrev pub IsShown : ℕ → ℕ → Type 0
IsShown bo c = ((12 ≤ bo) × (bo ≤ 15)) ⊎ ((4 ≤ bo) × (bo ≤ 7) × (c ≤ 3))

-- The texts of its operands.
unfoldable pub bc_texts : ℕ → ℕ → ℕ → Symname → ℤ → List Bytes
bc_texts pc bo c symname z =
    (codes "$" ++ Fmt.decimal (pos bo)) ∷ cond_text bc (pos c) ∷ plan9_target pc symname z ∷ []

module _ (pc bo c : ℕ) (symname : Symname) (z : ℤ) (small : bo < 32) (lo : 1 ≤ c)
    (hi : c ≤ 32) where
  pub bc_operands : plan9_operands bc pc symname (bc_args bo c z) ≡ bc_texts pc bo c symname z
  unfolding plan9_operands bc_texts
  bc_operands = rw (cond_text_some bc c lo hi, target_some pc symname z)

  bits : to_unsigned 64 (pos bo) ≡ bo
  bits = omega arith

  pub bc_layout_set :
      12 ≤ bo
      → bo ≤ 15
      → bc_layout (bc_texts pc bo c symname z) (some (imm (pos bo)))
        ≡ ok (codes "B" ++ (cond_text bc (pos c) ++ (codes " " ++ plan9_target pc symname z)))
  unfolding bc_layout bc_texts
  bc_layout_set h k = rw (bits, on_set bo small) (ground arith)

  pub bc_layout_clear :
      4 ≤ bo
      → bo ≤ 7
      → c ≤ 3
      → bc_layout (bc_texts pc bo c symname z) (some (imm (pos bo)))
        ≡ ok (
            codes "B"
            ++ (rev_cond_map (cond_text bc (pos c)) ++ (codes " " ++ plan9_target pc symname z)))
  unfolding bc_layout bc_texts
  bc_layout_clear h k l =
      rw (bits, on_set bo small, on_clear bo small, rev_cond_text bc c lo hi) (ground arith)

  pub bc_layout_shown :
      IsShown bo c → Returns (bc_layout (bc_texts pc bo c symname z) (some (imm (pos bo))))
  bc_layout_shown (inl (h, k)) = (_, bc_layout_set h k)
  bc_layout_shown (inr (h, k, l)) = (_, bc_layout_clear h k l)

  pub bc_layout_panics :
      ¬ IsShown bo c
      → bc_layout (bc_texts pc bo c symname z) (some (imm (pos bo)))
        ≡ panic (message (codes "unreachable"))
  unfolding bc_layout bc_texts
  bc_layout_panics other =
      rw (bits, on_set bo small, on_clear bo small, rev_cond_text bc c lo hi)
        (elim (Bool-cases (leb 12 bo && leb bo 15)) [
          | inl set ↦ absurd (other (inl (ground arith)))
          | inr unset ↦ elim (Bool-cases ((leb 4 bo && leb bo 7) && leb c 3)) [
            | inl clear ↦ absurd (other (inr (ground arith)))
            | inr never ↦ ground arith
          ]
        ])

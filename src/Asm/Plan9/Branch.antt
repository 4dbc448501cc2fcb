-- ===== src/Asm/Plan9/Branch.antt =====
-- power64asm/tables.go: the operands of the conditional branches.
use power.Base.{
  ℕ, ◌+◌, ◌*◌, ◌^◌, ◌<◌, ℤ, pos, Bool, true, false, not, ◌&&◌, ◌||◌, &&-true, List, [], ◌∷◌, Option,
  none, some, all, ◌==◌, ◌≡◌, refl, arith, all→All,
}
use power.Asm.Inst.{imm, cond_reg, pc_rel}
use power.Asm.BitFields.Value.{width, joined, joined_bound}
use power.Asm.ArgField.{ArgType, ArgField, type_pc_rel, type_cond_reg_bit, type_imm_unsigned}
use power.Asm.ArgField.Meaning.{meaning_as}
use power.Asm.InstFormat.{InstFormat}
use power.Asm.Formats.{inst_formats}
use power.Asm.Decode.Table.{Passes}
use power.Asm.Op.Part00.{bc, bclr, bcctr, bcctrl}

unfoldable pub is_imm_type : ArgType → Bool
is_imm_type type_imm_unsigned = true
is_imm_type t = false

unfoldable pub is_cond_type : ArgType → Bool
is_cond_type type_cond_reg_bit = true
is_cond_type t = false

unfoldable pub is_target_type : ArgType → Bool
is_target_type type_pc_rel = true
is_target_type t = false

-- A field of five bits that are not scaled.
unfoldable pub is_five_bits : ArgField → Bool
unfolding width
is_five_bits a = width a.bit_fields == 5 && a.shift == 0

unfoldable pub starts_with_imm : List (Option ArgField) → Bool
unfolding is_imm_type
starts_with_imm [] = false
starts_with_imm (none ∷ rest) = false
starts_with_imm (some a ∷ rest) = is_imm_type a.arg_type

-- BO, BI and a target, and no more.
unfoldable pub is_bc_fields : List (Option ArgField) → Bool
unfolding is_imm_type is_cond_type is_target_type is_five_bits
is_bc_fields (some a ∷ some b ∷ some c ∷ none ∷ rest) =
    (is_imm_type a.arg_type && is_five_bits a)
    && ((is_cond_type b.arg_type && is_five_bits b) && is_target_type c.arg_type)
is_bc_fields other = false

-- What the rules of the four branches with a case of their own have as fields.
unfoldable pub branch_ok : InstFormat → Bool
unfolding is_bc_fields starts_with_imm
branch_ok f =
    (not (f.op == bc) || is_bc_fields f.args)
    && (not (f.op == bclr || (f.op == bcctr || f.op == bcctrl)) || starts_with_imm f.args)

branches_ok : all branch_ok inst_formats ≡ true
unfolding all branch_ok inst_formats
branches_ok = refl

pub inst_formats-branch_ok : Passes branch_ok inst_formats
inst_formats-branch_ok = all→All branch_ok inst_formats branches_ok

pub imm_meaning :
    (t : ArgType) (s n u : ℕ)
    → is_imm_type t ≡ true
    → meaning_as t s n u ≡ some (imm (pos (u * 2 ^ s)))
unfolding meaning_as is_imm_type
imm_meaning type_imm_unsigned s n u h = refl
imm_meaning t s n u h = cc

pub cond_meaning :
    (t : ArgType) (s n u : ℕ)
    → is_cond_type t ≡ true
    → meaning_as t s n u ≡ some (cond_reg (pos (1 + u)))
unfolding meaning_as is_cond_type
cond_meaning type_cond_reg_bit s n u h = refl
cond_meaning t s n u h = cc

pub target_meaning :
    (t : ArgType) (s n u : ℕ)
    → is_target_type t ≡ true
    → (z : ℤ) × (meaning_as t s n u ≡ some (pc_rel z))
unfolding meaning_as is_target_type
target_meaning type_pc_rel s n u h = (_, refl)
target_meaning t s n u h = cc

pub five_bits :
    (a : ArgField) (i : ℕ) → is_five_bits a ≡ true → (joined 0 a.bit_fields i < 32) × (a.shift ≡ 0)
unfolding is_five_bits
five_bits a i h =
    let (w, s) = &&-true (width a.bit_fields == 5) _ h in
    let five : width a.bit_fields ≡ 5 = ground arith in
    (rw five at (joined_bound a.bit_fields i), ground arith)

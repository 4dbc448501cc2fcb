-- ===== src/Asm/Witnesses/Printers.antt =====
-- The theorems on the printers at concrete inputs that meet their hypotheses.
use power.Base.{
  ℕ, Bytes, codes, [], ◌∷◌, ◌++◌, none, some, ok, panic, message, Returns, ℤ, pos, ◌≡◌, refl, arith,
}
use power.Asm.BitField.{BitField, parse}
use power.Asm.BitField
use power.Asm.BitFields
use power.Asm.BitFields.{BitFields}
use power.Asm.ArgField
use power.Asm.ArgField.{ArgField}
use power.Asm.Inst.{Inst, reg, offset}
use power.Asm.Formats.{inst_formats}
use power.Asm.Op.Part00.{bc, lbz}
use power.Asm.Decode.{big_endian_u32, big_endian, Decoded, make_cover, decode}
use power.Asm.LoadStore.{remove_arg}
use power.Asm.LoadStore.Remove.{remove_arg-delete}
use power.Asm.Gnu.{gnu_syntax}
use power.Asm.Gnu.Text.{gnu_text}
use power.Asm.Gnu.Text.Printed.{gnu_syntax-gnu_text}
use power.Asm.Gnu.Decoded.{gnu_syntax-decode}
use power.Asm.Plan9.{plan9_syntax, no_symbols, layout, plan9_target}
use power.Asm.Plan9.Text.{cond_text, plan9_operands}
use power.Asm.Plan9.Text.Printed.{plan9_syntax-layout}
use power.Asm.Plan9.Condition.{Condition, Negates, condition_name, bit_condition}
use power.Asm.Plan9.Bc.{bc_args, IsShown}
use power.Asm.Plan9.Decoded.{
  IsBc, plan9_syntax-bc_set, plan9_syntax-bc_clear, plan9_syntax-bc_panics, decode-bc,
  plan9_syntax-decode,
}
use power.Asm.Inst.{inst_string}
use power.Asm.Inst.Strings.{inst_string-Returns}
use power.Asm.Witnesses.{lbz_bytes, lbz_inst, lbz_decoded, lbz_run}
use power.Base.{if◌then◌else◌, inl}
use power.Asm.Inst.{imm, cond_reg}
use power.Asm.Decode.Inversion.{IsPrintable}
use power.Asm.Op.Part00.{bclr}
use power.Asm.Plan9.{plan9_op, in_order}
use power.Asm.Plan9.Always.{is_always, plan9_syntax-is_always}

gnu_syntax-decode_example : gnu_syntax lbz_inst ≡ ok (gnu_text lbz_inst)
gnu_syntax-decode_example = gnu_syntax-decode none lbz_bytes big_endian lbz_decoded lbz_run refl

gnu_syntax-gnu_text_example : gnu_syntax lbz_inst ≡ ok (gnu_text lbz_inst)
gnu_syntax-gnu_text_example = gnu_syntax-gnu_text lbz_inst (omega arith) refl (omega arith)

plan9_syntax-layout_example :
    plan9_syntax lbz_inst 0 none
    ≡ layout lbz (plan9_operands lbz 0 no_symbols lbz_inst.args) (some (reg 1))
plan9_syntax-layout_example = plan9_syntax-layout lbz_inst 0 none (omega arith)

plan9_syntax-decode_example : Returns (plan9_syntax lbz_inst 0 none)
plan9_syntax-decode_example =
    plan9_syntax-decode none lbz_bytes big_endian lbz_decoded 0 none lbz_run refl (omega arith)

-- beq, bne and bdnz
abbrev bc_inst : ℕ → Inst
bc_inst bo = record { op = bc; enc = 0; len = 4; args = bc_args bo 3 (pos 8) }

plan9_syntax-bc_set_example :
    plan9_syntax (bc_inst 12) 0 none
    ≡ ok (codes "B" ++ (cond_text bc (pos 3) ++ (codes " " ++ plan9_target 0 no_symbols (pos 8))))
plan9_syntax-bc_set_example =
    plan9_syntax-bc_set (bc_inst 12) 0 12 3 none (pos 8)
      (refl, refl, omega arith, omega arith, omega arith) (omega arith) (omega arith)

plan9_syntax-bc_clear_example :
    (n : Condition) × Negates n (bit_condition 3)
    × (cond_text bc (pos 3) ≡ condition_name (bit_condition 3))
    × (plan9_syntax (bc_inst 4) 0 none
        ≡ ok (codes "B" ++ (condition_name n ++ (codes " " ++ plan9_target 0 no_symbols (pos 8)))))
plan9_syntax-bc_clear_example =
    plan9_syntax-bc_clear (bc_inst 4) 0 4 3 none (pos 8)
      (refl, refl, omega arith, omega arith, omega arith) (omega arith) (omega arith) (omega arith)

bdnz_not-IsShown : ¬ IsShown 16 3
bdnz_not-IsShown = λ h. omega arith

plan9_syntax-bc_panics_example :
    plan9_syntax (bc_inst 16) 0 none ≡ panic (message (codes "unreachable"))
plan9_syntax-bc_panics_example =
    plan9_syntax-bc_panics (bc_inst 16) 0 16 3 none (pos 8)
      (refl, refl, omega arith, omega arith, omega arith) bdnz_not-IsShown

abbrev bdnz_bytes : Bytes
bdnz_bytes = 0x42 ∷ 0x00 ∷ 0x00 ∷ 0x08 ∷ []

abbrev bdnz_decoded : Decoded
bdnz_decoded = record {
  inst = record { op = bc; enc = 0x42000008; len = 4; args = bc_args 16 1 (pos 8) };
  err = none;
  cover = make_cover none;
}

bdnz_run : decode none bdnz_bytes big_endian ≡ ok bdnz_decoded
unfolding decode inst_formats big_endian_u32 ArgField.parse BitFields.parse_unsigned
    BitFields.parse_signed BitFields.parse BitField.parse
bdnz_run = refl

decode-bc_example : (bo : ℕ) × (c : ℕ) × (z : ℤ) × IsBc bdnz_decoded.inst bo c z
decode-bc_example = decode-bc none bdnz_bytes big_endian bdnz_decoded bdnz_run refl refl

remove_arg-delete_example :
    remove_arg lbz_inst.args 2 ≡ some (reg 1) ∷ some (offset (pos 23)) ∷ none ∷ none ∷ none ∷ []
remove_arg-delete_example =
    remove_arg-delete (some (reg 1) ∷ some (offset (pos 23)) ∷ []) (none ∷ none ∷ []) (some (reg 1))
      refl

inst_string-Returns_example : Returns (inst_string lbz_inst)
inst_string-Returns_example = inst_string-Returns lbz_inst

-- blr
abbrev blr_inst : Inst
blr_inst = record {
  op = bclr;
  enc = 0x4e800020;
  len = 4;
  args = some (imm (pos 20)) ∷ some (cond_reg (pos 1)) ∷ some (imm (pos 0)) ∷ none ∷ none ∷ [];
}

blr-IsPrintable : IsPrintable blr_inst
blr-IsPrintable = (omega arith, refl, (tt, ((omega arith, omega arith), (tt, tt))))

plan9_syntax-is_always_example :
    plan9_syntax blr_inst 0 none
    ≡ ok (
        if is_always 20
        then codes "RET"
        else in_order (plan9_op bclr) (plan9_operands bclr 0 no_symbols blr_inst.args))
plan9_syntax-is_always_example =
    plan9_syntax-is_always blr_inst 0 20 none (codes "RET") (inl (refl, refl)) blr-IsPrintable refl
      (omega arith)

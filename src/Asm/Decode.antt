-- ===== src/Asm/Decode.antt =====
-- power64asm/decode.go, `Decode`.
pub mod Rules
pub mod Table
pub mod Loops
pub mod Correct
pub mod Inversion
pub mod Shadow
pub mod Mnemonic
pub mod Word
use power.Base.{
  ℕ, zero, suc, ◌+◌, ◌*◌, ◌^◌, bit_and, Bool, false, Bytes, List, [], ◌∷◌, Option, none, some, ltb,
  ◌==◌, if◌then◌else◌, length, set, replicate, Outcome, ok, panic, index_out_of_range, ◌>>=◌,
}
use power.Asm.ArgField
use power.Asm.ArgField.{ArgField}
use power.Asm.Inst.{Inst, Args, no_args}
use power.Asm.InstFormat.{InstFormat}
use power.Asm.Formats.{inst_formats}

-- errShort and errUnknown
pub data Error : Type 0 where
  err_short : Error
  err_unknown : Error

-- binary.ByteOrder, of which the code uses one method.
pub record ByteOrder : Type 0 where
  pub uint32 : Bytes → Outcome ℕ

-- binary.BigEndian, on which the package's tests and drivers call `Decode`.
unfoldable pub big_endian_u32 : Bytes → Outcome ℕ
big_endian_u32 (a ∷ b ∷ c ∷ d ∷ rest) = ok (a * 2 ^ 24 + b * 2 ^ 16 + c * 2 ^ 8 + d)
big_endian_u32 other = panic index_out_of_range

abbrev pub big_endian : ByteOrder
big_endian = record { uint32 = big_endian_u32 }

abbrev pub take : ℕ → Bytes → Bytes
take zero s = []
take (suc n) [] = []
take (suc n) (c ∷ s) = c ∷ take n s

-- What `Decode` returns, and the package's `decoderCover` after it; `none` is nil.
pub record Decoded : Type 0 where
  pub inst : Inst
  pub err : Option Error
  pub cover : Option (List Bool)

-- `inst.Op == 0`: no rule matched.
abbrev pub zero_inst : Inst
zero_inst = record { op = 0; enc = 0; len = 0; args = no_args }

-- The inner loop, at index `i`: it stops at the first nil field.
unfoldable pub parse_args : List (Option ArgField) → ℕ → ℕ → Args → Outcome Args
parse_args [] ui i args = ok args
parse_args (none ∷ rest) ui i args = ok args
parse_args (some field ∷ rest) ui i args = do
  arg ← ArgField.parse field ui
  parse_args rest ui (i + 1) (set args i arg)

-- The outer loop: it stops behind the first rule that matches. Don't care bits are ignored.
unfoldable pub try_rules : List InstFormat → ℕ → Inst → Outcome Inst
unfolding parse_args
try_rules [] ui inst = ok inst
try_rules (iform ∷ rest) ui inst =
    if bit_and ui iform.mask == iform.value
    then (do
      args ← parse_args iform.args ui 0 inst.args
      ok (record inst { op = iform.op; args = args }))
    else try_rules rest ui inst

-- `make([]bool, len(instFormats))` on the first call.
unfoldable pub make_cover : Option (List Bool) → Option (List Bool)
make_cover none = some (replicate (length inst_formats) false)
make_cover (some c) = some c

unfoldable pub finish : Inst → Option (List Bool) → Decoded
finish inst cover = record {
  inst = inst;
  err = if inst.op == 0 then some err_unknown else none;
  cover = cover;
}

unfoldable pub decode : Option (List Bool) → Bytes → ByteOrder → Outcome Decoded
unfolding try_rules make_cover finish
decode cover src ord =
    if ltb (length src) 4
    then ok (record { inst = zero_inst; err = some err_short; cover = cover })
    else (do
      ui ← ord.uint32 (take 4 src)
      inst ← try_rules inst_formats ui (record zero_inst { len = 4; enc = ui })
      ok (finish inst (make_cover cover)))

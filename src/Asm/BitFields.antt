-- ===== src/Asm/BitFields.antt =====
-- power64asm/field.go, type BitFields: a number that is split over several bit fields.
pub mod Value
pub mod Masks
use power.Base.{
  ℕ, ◌+◌, ◌*◌, ◌%◌, ◌^◌, bit_or, ℤ, Bytes, codes, List, [], ◌∷◌, ◌++◌, map, Outcome, ok, ◌>>=◌,
}
use power.Base.Int.{to_signed, shift_left, shift_right}
use power.Strings
use power.Asm.BitField
use power.Asm.BitField.{BitField, sub_u8}

abbrev pub BitFields : Type 0
BitFields = List BitField

unfoldable pub string : BitFields → Bytes
string bs = codes "<" ++ (Strings.join (map BitField.string bs) (codes "|") ++ codes ">")

-- The slice after `*bs = append(*bs, b)`.
unfoldable pub append : BitFields → BitField → BitFields
append bs b = bs ++ (b ∷ [])

-- The loop of `parse`, from the number `u` and the length `l` of what is read.
unfoldable pub parse_loop : BitFields → ℕ → ℕ → ℕ → Outcome (ℕ × ℕ)
parse_loop [] i u l = ok (u, l)
parse_loop (b ∷ bs) i u l = do
  x ← BitField.parse b i
  parse_loop bs i (bit_or (u * 2 ^ b.bits % 2 ^ 32) x) ((l + b.bits) % 256)

-- `parse`: the number and the total length.
unfoldable pub parse : BitFields → ℕ → Outcome (ℕ × ℕ)
unfolding parse_loop
parse bs i = parse_loop bs i 0 0

-- `Parse`
unfoldable pub parse_unsigned : BitFields → ℕ → Outcome ℕ
parse_unsigned bs i = do (u, l) ← parse bs i; ok u

-- `ParseSigned`
unfoldable pub parse_signed : BitFields → ℕ → Outcome ℤ
parse_signed bs i = do
  (u, l) ← parse bs i
  ok (shift_right (shift_left 32 (to_signed 32 u) (sub_u8 32 l)) (sub_u8 32 l))

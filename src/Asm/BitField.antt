-- ===== src/Asm/BitField.antt =====
-- power64asm/field.go, type BitField: a field of a 32-bit word, counted from the top bit.
pub mod Value
pub mod Signed
use power.Base.{
  ℕ, ◌+◌, ◌-◌, ◌*◌, ◌/◌, ◌%◌, ◌^◌, ◌≤◌, ◌<◌, bit_and, Bool, ◌||◌, ltb, ◌==◌, if◌then◌else◌, ℤ, pos,
  negsuc, ◌++◌, Bytes, codes, Outcome, ok, panic, message, ◌>>=◌,
}
use power.Base.Int.{to_signed, shift_left, shift_right}
use power.Fmt

-- Both fields are uint8.
pub record BitField : Type 0 where
  -- the offset of the left-most bit
  pub offs : ℕ
  -- the length in bits
  pub bits : ℕ

-- Subtraction in uint8.
abbrev pub sub_u8 : ℕ → ℕ → ℕ
sub_u8 a b = (a + 256 - b) % 256

-- `int(n)-1`
abbrev minus_one : ℕ → ℤ
minus_one n = if n == 0 then negsuc 0 else pos (n - 1)

unfoldable pub string : BitField → Bytes
string b =
    if ltb 1 b.bits
    then codes "["
      ++ (Fmt.decimal (pos b.offs)
          ++ (codes ":" ++ (Fmt.decimal (minus_one ((b.offs + b.bits) % 256)) ++ codes "]")))
    else if b.bits == 1
    then codes "[" ++ (Fmt.decimal (pos b.offs) ++ codes "]")
    else codes "[" ++ (Fmt.decimal (pos b.offs) ++ codes ", len=0]")

-- The test under which `Parse` panics; `Offs+Bits` is computed in uint8.
unfoldable pub is_invalid : BitField → Bool
is_invalid b = ltb 32 b.bits || (b.bits == 0 || (ltb 31 b.offs || ltb 32 ((b.offs + b.bits) % 256)))

-- `(i >> (32 - b.Offs - b.Bits)) & ((1 << b.Bits) - 1)`, in uint32 with the shifts in uint8.
unfoldable pub parse : BitField → ℕ → Outcome ℕ
unfolding is_invalid
parse b i =
    if is_invalid b
    then panic (message (codes "invalid bitfiled " ++ string b))
    else ok (
        bit_and (i / 2 ^ sub_u8 (sub_u8 32 b.offs) b.bits)
          ((1 * 2 ^ b.bits % 2 ^ 32 + 2 ^ 32 - 1) % 2 ^ 32))

-- `u << (32 - b.Bits) >> (32 - b.Bits)` on int32.
unfoldable pub parse_signed : BitField → ℕ → Outcome ℤ
parse_signed b i = do
  x ← parse b i
  let u = to_signed 32 x
  ok (shift_right (shift_left 32 u (sub_u8 32 b.bits)) (sub_u8 32 b.bits))

-- ===== src/Base/Int.antt =====
-- Go's signed integers of a fixed width, as integers over the native numbers.
use Prim.Native.Nat.{ℕ, ◌+◌, ◌-◌, ◌*◌, ◌/◌, ◌%◌, ◌^◌}
use mathlib.Core.Bool.{Bool}
use power.Base.Tests.{ltb, leb, ◌==◌, if◌then◌else◌}

-- `negsuc n` is -(n + 1).
pub data ℤ : Type 0 where
  pos : ℕ → ℤ
  negsuc : ℕ → ℤ

-- The conversion of a bit pattern to a signed integer of `w` bits: two's complement.
abbrev pub to_signed : ℕ → ℕ → ℤ
to_signed w n =
    if ltb (n % 2 ^ w) (2 ^ (w - 1)) then pos (n % 2 ^ w) else negsuc (2 ^ w - n % 2 ^ w - 1)

-- The bit pattern of an integer in `w` bits, which is also its conversion to an unsigned type.
abbrev pub to_unsigned : ℕ → ℤ → ℕ
to_unsigned w (pos n) = n % 2 ^ w
to_unsigned w (negsuc n) = 2 ^ w - 1 - n % 2 ^ w

-- `z << k` in `w` bits.
abbrev pub shift_left : ℕ → ℤ → ℕ → ℤ
shift_left w z k = to_signed w (to_unsigned w z * 2 ^ k)

-- `z >> k`, which rounds towards minus infinity.
abbrev pub shift_right : ℤ → ℕ → ℤ
shift_right (pos n) k = pos (n / 2 ^ k)
shift_right (negsuc n) k = negsuc (n / 2 ^ k)

-- `a + b` and `a - b` in `w` bits.
abbrev pub add_signed : ℕ → ℤ → ℤ → ℤ
add_signed w a b = to_signed w (to_unsigned w a + to_unsigned w b)

abbrev pub sub_signed : ℕ → ℤ → ℤ → ℤ
sub_signed w a b = to_signed w (to_unsigned w a + 2 ^ w - to_unsigned w b)

-- `a <= b`
abbrev pub leb_ℤ : ℤ → ℤ → Bool
leb_ℤ (pos m) (pos n) = leb m n
leb_ℤ (pos m) (negsuc n) = Bool.false
leb_ℤ (negsuc m) (pos n) = Bool.true
leb_ℤ (negsuc m) (negsuc n) = leb n m

-- `a == b`
abbrev pub eq_ℤ : ℤ → ℤ → Bool
eq_ℤ (pos m) (pos n) = m == n
eq_ℤ (pos m) (negsuc n) = Bool.false
eq_ℤ (negsuc m) (pos n) = Bool.false
eq_ℤ (negsuc m) (negsuc n) = m == n

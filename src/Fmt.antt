-- ===== src/Fmt.antt =====
-- What the program uses of Go's package fmt: integers by the verbs %d, %+d, %x and %#x.
use power.Base.{
  ℕ, zero, suc, ◌+◌, ◌-◌, ◌/◌, ◌%◌, ℤ, pos, negsuc, Bytes, codes, [], ◌∷◌, ◌++◌, ltb, ◌==◌,
  if◌then◌else◌,
}

abbrev digit : ℕ → ℕ
digit d = if ltb d 10 then b'0' + d else b'a' + d - 10

-- The digits of `n` in front of `out`; 64 rounds are enough for 64 bits in every base.
digits : ℕ → ℕ → ℕ → Bytes → Bytes
digits zero base n out = out
digits (suc rounds) base n out =
    let rest = digits rounds base (n / base) (digit (n % base) ∷ out) in
    if n == 0 then out else rest

unfoldable pub unsigned : ℕ → ℕ → Bytes
unfolding digits
unsigned base n = if n == 0 then codes "0" else digits 64 base n []

-- %d
unfoldable pub decimal : ℤ → Bytes
unfolding unsigned
decimal (pos n) = unsigned 10 n
decimal (negsuc n) = codes "-" ++ unsigned 10 (n + 1)

-- %+d
unfoldable pub decimal_plus : ℤ → Bytes
unfolding unsigned
decimal_plus (pos n) = codes "+" ++ unsigned 10 n
decimal_plus (negsuc n) = codes "-" ++ unsigned 10 (n + 1)

-- %#x
unfoldable pub hex : ℤ → Bytes
unfolding unsigned
hex (pos n) = codes "0x" ++ unsigned 16 n
hex (negsuc n) = codes "-0x" ++ unsigned 16 (n + 1)

-- %+#x
unfoldable pub hex_plus : ℤ → Bytes
unfolding unsigned
hex_plus (pos n) = codes "+0x" ++ unsigned 16 n
hex_plus (negsuc n) = codes "-0x" ++ unsigned 16 (n + 1)

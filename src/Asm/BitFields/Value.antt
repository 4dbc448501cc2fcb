-- ===== src/Asm/BitFields/Value.antt =====
-- The number that a sequence of bit fields stands for: the fields joined, the first one on top.
use power.Base.{ℕ, ◌+◌, ◌*◌, ◌%◌, ◌^◌, ◌≤◌, ◌<◌, bit_or, ok, [], ◌∷◌, All, ◌≡◌, arith, ap}
use power.Base.Bits.{bit_or_fields}
use power.Base.Pow.{two_pow-le, two_pow-add}
use power.Asm.BitField.Value.{IsValid, value, value-lt, parse-value, sign_extend}
use power.Asm.BitField.Signed.{shifts-sign_extend}
use power.Asm.BitFields.{BitFields, parse_loop, parse, parse_unsigned, parse_signed}
use native.Mathlib.Nat.{mod-eq_of_lt, mul-le-mul_right}

unfoldable pub width : BitFields → ℕ
width [] = 0
width (b ∷ bs) = b.bits + width bs

-- `u` followed by the fields.
unfoldable pub joined : ℕ → BitFields → ℕ → ℕ
joined u [] i = u
joined u (b ∷ bs) i = joined (u * 2 ^ b.bits + value b i) bs i

-- Each field lies in the word, and together they fit in it.
abbrev pub Fits : BitFields → Type 0
Fits bs = All IsValid bs × (width bs ≤ 32)

module _ (u l : ℕ) (hu : u < 2 ^ l) where
  join-lt : (k x : ℕ) → x < 2 ^ k → u * 2 ^ k + x < 2 ^ (l + k)
  join-lt k x hx = rw two_pow-add (omega (arith, mul-le-mul_right (2 ^ k) hu))

  -- One round of the loop adds the field at the low end: nothing is shifted out.
  shift_in : (k x : ℕ) → l + k ≤ 32 → x < 2 ^ k → bit_or (u * 2 ^ k % 2 ^ 32) x ≡ u * 2 ^ k + x
  shift_in k x h hx =
      let top : 2 ^ (l + k) ≤ 2 ^ 32 = two_pow-le (l + k) 32 h in
      rw (mod-eq_of_lt {n = u * 2 ^ k} {m = 2 ^ 32} (omega (arith, join-lt k x hx)))
        (bit_or_fields k u x hx)

pub joined-lt : (bs : BitFields) (i u l : ℕ) → u < 2 ^ l → joined u bs i < 2 ^ (l + width bs)
unfolding joined width
joined-lt [] i u l h = let e : l + 0 ≡ l = omega arith in rw e h
joined-lt (b ∷ bs) i u l h =
    let e : l + (b.bits + width bs) ≡ l + b.bits + width bs = omega arith in
    rw e (joined-lt bs i _ (l + b.bits) (join-lt u l h b.bits (value b i) (value-lt b i)))

parse_loop-joined :
    (bs : BitFields) (i u l : ℕ)
    → All IsValid bs
    → u < 2 ^ l
    → l + width bs ≤ 32
    → parse_loop bs i u l ≡ ok (joined u bs i, l + width bs)
unfolding parse_loop joined width
parse_loop-joined [] i u l v hu h = let e : l + 0 ≡ l = omega arith in rw e
parse_loop-joined (b ∷ bs) i u l v hu h =
    let bits : (l + b.bits) % 256 ≡ l + b.bits = omega arith in
    let regroup : l + (b.bits + width bs) ≡ l + b.bits + width bs = omega arith in
    rw
      (
        parse-value b i v.0,
        shift_in u l hu b.bits (value b i) (omega arith) (value-lt b i),
        bits,
        regroup,
      )
      (parse_loop-joined bs i _ (l + b.bits) v.1 (join-lt u l hu b.bits (value b i) (value-lt b i))
        (omega arith))

-- On fields that lie in the word and take 32 bits together, or less, `parse` returns the number that
-- the fields make one behind the other, the first one on top, and the sum of their lengths.
pub parse-joined : (bs : BitFields) (i : ℕ) → Fits bs → parse bs i ≡ ok (joined 0 bs i, width bs)
unfolding parse
parse-joined bs i h =
    let e : 0 + width bs ≡ width bs = omega arith in
    rw (← e) (parse_loop-joined bs i 0 0 h.0 (omega arith) (omega arith))

pub parse_unsigned-joined :
    (bs : BitFields) (i : ℕ) → Fits bs → parse_unsigned bs i ≡ ok (joined 0 bs i)
unfolding parse_unsigned
parse_unsigned-joined bs i h = rw (parse-joined bs i h)

pub joined_bound : (bs : BitFields) (i : ℕ) → joined 0 bs i < 2 ^ width bs
joined_bound bs i =
    let e : 0 + width bs ≡ width bs = omega arith in rw (← e) (joined-lt bs i 0 0 (omega arith))

-- On fields that lie in the word and take 1 to 32 bits together, `ParseSigned` returns the joined
-- number as a two's complement number of that many bits.
pub parse_signed-joined :
    (bs : BitFields) (i : ℕ)
    → Fits bs
    → 0 < width bs
    → parse_signed bs i ≡ ok (sign_extend (width bs) (joined 0 bs i))
unfolding parse_signed
parse_signed-joined bs i h pos =
    rw (parse-joined bs i h)
      (ap ok (shifts-sign_extend (width bs) (joined 0 bs i) pos h.1 (joined_bound bs i)))

-- ===== src/Asm/BitFields/Masks.antt =====
-- The bits of a word that fields are read from, as a mask.
use power.Base.{
  ℕ, ◌+◌, ◌-◌, ◌*◌, ◌/◌, ◌^◌, ◌<◌, bit_and, bit_or, [], ◌∷◌, ◌≡◌, refl, arith, sym, ap, ◌∙◌,
}
use power.Base.And.{bit_and-bit_or, and_shifted}
use power.Base.Bits.{bit_and_mask}
use power.Base.Pow.{div-of-add}
use power.Asm.BitField.{BitField}
use power.Asm.BitField.Value.{value, value-lt}
use power.Asm.BitFields.{BitFields}
use power.Asm.BitFields.Value.{joined}

abbrev field_mask : BitField → ℕ
field_mask b = (2 ^ b.bits - 1) * 2 ^ (32 - b.offs - b.bits)

unfoldable pub fields_mask : BitFields → ℕ
fields_mask [] = 0
fields_mask (b ∷ bs) = bit_or (field_mask b) (fields_mask bs)

-- Two words have the same bits under a mask.
abbrev pub Agree : ℕ → ℕ → ℕ → Type 0
Agree m u v = bit_and u m ≡ bit_and v m

pub Agree-bit_or : (m k u v : ℕ) → Agree m u v → Agree k u v → Agree (bit_or m k) u v
Agree-bit_or m k u v h l = rw (bit_and-bit_or u m k, bit_and-bit_or v m k, h, l) refl

pub Agree-nothing : (u v : ℕ) → Agree 0 u v
Agree-nothing u v = omega (arith, bit_and_mask 0 u, bit_and_mask 0 v)

under_field :
    (b : BitField) (u : ℕ) → bit_and u (field_mask b) ≡ value b u * 2 ^ (32 - b.offs - b.bits)
under_field b u =
    and_shifted (32 - b.offs - b.bits) u (2 ^ b.bits - 1)
    ∙ ap (λ (x : ℕ). x * 2 ^ (32 - b.offs - b.bits))
        (bit_and_mask b.bits (u / 2 ^ (32 - b.offs - b.bits)))

value-Agree : (b : BitField) (u v : ℕ) → value b u ≡ value b v → Agree (field_mask b) u v
value-Agree b u v e = rw (under_field b u, under_field b v, e) refl

-- Two numbers joined of a high and a low part have the same parts.
same_high : (q a c x y : ℕ) → x < q → y < q → a * q + x ≡ c * q + y → a ≡ c
same_high q a c x y h l e = sym (div-of-add a q x h) ∙ ap (λ (t : ℕ). t / q) e ∙ div-of-add c q y l

pub joined-Agree :
    (bs : BitFields) (u v a c : ℕ)
    → joined a bs u ≡ joined c bs v
    → (a ≡ c) × Agree (fields_mask bs) u v
unfolding joined fields_mask
joined-Agree [] u v a c e = (e, Agree-nothing u v)
joined-Agree (b ∷ bs) u v a c e =
    let (here, rest) =
      joined-Agree bs u v (a * 2 ^ b.bits + value b u) (c * 2 ^ b.bits + value b v) e in
    let high : a ≡ c =
      same_high (2 ^ b.bits) a c (value b u) (value b v) (value-lt b u) (value-lt b v) here in
    let low : value b u ≡ value b v = omega (rw high at here, arith) in
    (high, Agree-bit_or (field_mask b) (fields_mask bs) u v (value-Agree b u v low) rest)

-- ===== src/Asm/Decode/Rules.antt =====
-- power64asm/tables.go: a test on a decoding rule, and what it says of one that passes.
use power.Base.{
  ◌+◌, ◌<◌, bit_and, Bool, true, false, not, ◌&&◌, ◌||◌, List, [], ◌∷◌, Option, none, some, ltb,
  length, leb, ◌==◌, All, ◌≡◌, arith, &&-true,
}
use power.Asm.BitField.Value.{IsValid}
use power.Asm.BitFields.{BitFields}
use power.Asm.BitFields.Value.{width}
use power.Asm.ArgField.{ArgField, ArgType, type_offset, type_reg}
use power.Asm.ArgField.Meaning.{IsSound, room}
use power.Asm.InstFormat.{InstFormat}

unfoldable pub parts_ok : BitFields → Bool
parts_ok [] = true
parts_ok (b ∷ bs) = (ltb 0 b.bits && leb (b.offs + b.bits) 32) && parts_ok bs

unfoldable pub field_ok : ArgField → Bool
unfolding parts_ok width room
field_ok a =
    parts_ok a.bit_fields
    && (ltb 0 (width a.bit_fields)
        && (leb (width a.bit_fields) 32 && leb (width a.bit_fields + a.shift) (room a.arg_type)))

-- A field for an integer register.
unfoldable pub is_reg : ArgType → Bool
is_reg type_reg = true
is_reg t = false

unfoldable pub is_offset : ArgType → Bool
is_offset type_offset = true
is_offset t = false

unfoldable pub starts_with_reg : List (Option ArgField) → Bool
unfolding is_reg
starts_with_reg [] = false
starts_with_reg (none ∷ rest) = false
starts_with_reg (some a ∷ rest) = is_reg a.arg_type

-- Sound fields, and a register behind each offset.
unfoldable pub fields_ok : List (Option ArgField) → Bool
unfolding field_ok is_offset starts_with_reg
fields_ok [] = true
fields_ok (none ∷ rest) = true
fields_ok (some a ∷ rest) =
    field_ok a && ((not (is_offset a.arg_type) || starts_with_reg rest) && fields_ok rest)

-- A predicate on the fields in front of the first nil.
abbrev pub Each : (ArgField → Type 0) → List (Option ArgField) → Type 0
Each P [] = Unit
Each P (none ∷ rest) = Unit
Each P (some a ∷ rest) = P a × Each P rest

unfoldable pub rule_ok : InstFormat → Bool
unfolding fields_ok
rule_ok f =
    ltb 0 f.op
    && (length f.args == 5
        && (fields_ok f.args
            && (bit_and f.value f.mask == f.value && bit_and f.dont_care f.mask == 0)))

parts_ok→All : (bs : BitFields) → parts_ok bs ≡ true → All IsValid bs
unfolding parts_ok
parts_ok→All [] h = tt
parts_ok→All (b ∷ bs) h = ground (arith, parts_ok→All bs)

pub field_ok→IsSound : (a : ArgField) → field_ok a ≡ true → IsSound a
unfolding field_ok
field_ok→IsSound a h = ground (arith, parts_ok→All a.bit_fields)

pub fields_ok→Each : (fs : List (Option ArgField)) → fields_ok fs ≡ true → Each IsSound fs
unfolding fields_ok
fields_ok→Each [] h = tt
fields_ok→Each (none ∷ rest) h = tt
fields_ok→Each (some a ∷ rest) h =
    let (first, others) = &&-true (field_ok a) _ h in
    (field_ok→IsSound a first, fields_ok→Each rest (&&-true _ (fields_ok rest) others).1)

pub rule_ok→parts :
    (f : InstFormat)
    → rule_ok f ≡ true
    → (0 < f.op) × (length f.args ≡ 5) × (fields_ok f.args ≡ true)
unfolding rule_ok
rule_ok→parts f h = ground arith

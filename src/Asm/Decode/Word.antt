-- ===== src/Asm/Decode/Word.antt =====
-- power64asm: what a decoded instruction says of its word.
use power.Base.{
  ℕ, ◌-◌, ◌^◌, ◌<◌, bit_and, bit_or, Bool, true, ◌||◌, Bytes, List, [], ◌∷◌, ◌++◌, Option, none,
  some, ◌==◌, ==_iff, all, all→All, All, ok, ◌≡◌, ◌≢◌, refl, arith, sym, ap, ◌∙◌,
}
use power.Base.Bits.{bit_and_mask}
use power.Asm.Inst.{Inst, Arg, Args}
use power.Asm.BitFields.Value.{width, joined, joined_bound}
use power.Asm.BitFields.Masks.{fields_mask, Agree, Agree-bit_or, Agree-nothing, joined-Agree}
use power.Asm.ArgField.{ArgField}
use power.Asm.ArgField.Meaning.{IsSound, meaning}
use power.Asm.ArgField.Injective.{meaning_as-eq}
use power.Asm.InstFormat.{InstFormat}
use power.Asm.Formats.{inst_formats}
use power.Asm.Op.Part12.{tbegin_}
use power.Asm.Op.Part13.{tlbilx}
use power.Asm.Decode.{ByteOrder, Decoded, decode}
use power.Asm.Decode.Rules.{Each, rule_ok, rule_ok→parts, fields_ok→Each}
use power.Asm.Decode.Table.{inst_formats-rule_ok}
use power.Asm.Decode.Loops.{Matches, First, arg_meanings, instruction}
use power.Asm.Decode.Inversion.{First-rule, decode_sound}
use native.Mathlib.Nat.{mod-eq_of_lt}

-- The bits that the fields in front of the first nil are read from.
unfoldable args_mask : List (Option ArgField) → ℕ
unfolding fields_mask
args_mask [] = 0
args_mask (none ∷ rest) = 0
args_mask (some a ∷ rest) = bit_or (fields_mask a.bit_fields) (args_mask rest)

-- Each of the 32 bits is in the mask, a don't care bit, or in a field.
unfoldable is_complete : InstFormat → Bool
unfolding args_mask
is_complete f = bit_or (bit_or f.mask f.dont_care) (args_mask f.args) == 2 ^ 32 - 1

unfoldable is_complete_but : InstFormat → Bool
unfolding is_complete
is_complete_but f = is_complete f || (f.op == tbegin_ || f.op == tlbilx)

all_complete : all is_complete_but inst_formats ≡ true
unfolding all is_complete_but inst_formats
all_complete = refl

cons-eq : (a b : Option Arg) (s t : Args) → a ∷ s ≡ b ∷ t → (a ≡ b) × (s ≡ t)
cons-eq a b s t e = (cc, cc)

arg_meanings-Agree :
    (fs : List (Option ArgField)) (u v : ℕ)
    → Each IsSound fs
    → arg_meanings fs u ≡ arg_meanings fs v
    → Agree (args_mask fs) u v
unfolding arg_meanings args_mask meaning
arg_meanings-Agree [] u v h e = Agree-nothing u v
arg_meanings-Agree (none ∷ rest) u v h e = Agree-nothing u v
arg_meanings-Agree (some a ∷ rest) u v (sound, others) e =
    let (here, behind) = cons-eq _ _ _ _ e in
    let same : joined 0 a.bit_fields u ≡ joined 0 a.bit_fields v =
      meaning_as-eq a.shift (width a.bit_fields) _ _ sound.1 (joined_bound a.bit_fields u)
        (joined_bound a.bit_fields v) a.arg_type sound.2 here in
    Agree-bit_or (fields_mask a.bit_fields) (args_mask rest) u v
      (joined-Agree a.bit_fields u v 0 0 same).1 (arg_meanings-Agree rest u v others behind)

rule_eq : (f g : InstFormat) (s t : List InstFormat) → f ∷ s ≡ g ∷ t → (f ≡ g) × (s ≡ t)
rule_eq f g s t e = (cc, cc)

same_rule :
    (u : ℕ) (f g : InstFormat) (front back front' back' : List InstFormat)
    → front ++ (f ∷ back) ≡ front' ++ (g ∷ back')
    → All (λ h. ¬ Matches u h) front
    → All (λ h. ¬ Matches u h) front'
    → Matches u f
    → Matches u g
    → f ≡ g
same_rule u f g [] back [] back' e h k m n = (rule_eq _ _ _ _ e).0
same_rule u f g [] back (x ∷ front') back' e h k m n = absurd (k.0 (rw (rule_eq _ _ _ _ e).0 at m))
same_rule u f g (x ∷ front) back [] back' e h k m n =
    absurd (h.0 (rw (sym (rule_eq _ _ _ _ e).0) at n))
same_rule u f g (x ∷ front) back (y ∷ front') back' e h k m n =
    same_rule u f g front back front' back' (rule_eq _ _ _ _ e).1 h.1 k.1 m n

-- A word has one first rule.
First-unique : (u : ℕ) (f g : InstFormat) → First inst_formats u f → First inst_formats u g → f ≡ g
First-unique u f g (front, back, e, h, m) (front', back', e', k, n) =
    same_rule u f g front back front' back' (sym e ∙ e') h k m n

-- The words of a complete rule are determined by the arguments and the don't care bits.
instruction-word :
    (f : InstFormat) (u v : ℕ)
    → rule_ok f ≡ true
    → is_complete f ≡ true
    → Matches u f
    → Matches v f
    → u < 2 ^ 32
    → v < 2 ^ 32
    → arg_meanings f.args u ≡ arg_meanings f.args v
    → Agree f.dont_care u v
    → u ≡ v
unfolding is_complete
instruction-word f u v good complete m n hu hv args free =
    let whole : bit_or (bit_or f.mask f.dont_care) (args_mask f.args) ≡ 2 ^ 32 - 1 =
      (==_iff _ _).0 complete in
    let same : Agree (2 ^ 32 - 1) u v = rw whole at (
      Agree-bit_or (bit_or f.mask f.dont_care) (args_mask f.args) u v
        (Agree-bit_or f.mask f.dont_care u v (m ∙ sym n) free)
        (arg_meanings-Agree f.args u v (fields_ok→Each f.args (rule_ok→parts f good).2) args)) in
    sym (mod-eq_of_lt hu) ∙ sym (bit_and_mask 32 u) ∙ same ∙ bit_and_mask 32 v ∙ mod-eq_of_lt hv

First-Matches : (u : ℕ) (f : InstFormat) → First inst_formats u f → Matches u f
First-Matches u f (front, back, e, skipped, m) = m

-- `Decode` makes its instruction by the first rule of the word that it stores.
made_by :
    (cover : Option (List Bool)) (src : Bytes) (ord : ByteOrder) (d : Decoded) (f : InstFormat)
    → decode cover src ord ≡ ok d
    → d.err ≡ none
    → First inst_formats d.inst.enc f
    → (d.inst.op ≡ f.op) × (d.inst.args ≡ arg_meanings f.args d.inst.enc)
unfolding instruction
made_by cover src ord d f run fine by =
    let (ui, g, long, word, first, made) = decode_sound cover src ord d run fine in
    let read : d.inst.enc ≡ ui = ap (λ (x : Inst). x.enc) made in
    let same : g ≡ f = First-unique ui g f first (rw read at by) in
    (
      ap (λ (x : Inst). x.op) made ∙ ap (λ (r : InstFormat). r.op) same,
      ap (λ (x : Inst). x.args) made
          ∙ ap (λ (r : InstFormat). arg_meanings r.args ui) same
          ∙ ap (arg_meanings f.args) (sym read),
    )

-- If `Decode` returns two instructions with no error, read by the same rule of the table, of an
-- operation other than TBEGIN_ and TLBILX, and their words, of 32 bits, differ but agree on the rule's
-- don't care bits, then their arguments differ.
pub decode-enc :
    (cover : Option (List Bool)) (src src' : Bytes) (ord : ByteOrder) (d d' : Decoded)
    (f : InstFormat)
    → decode cover src ord ≡ ok d
    → decode cover src' ord ≡ ok d'
    → d.err ≡ none
    → d'.err ≡ none
    → First inst_formats d.inst.enc f
    → First inst_formats d'.inst.enc f
    → d.inst.op ≢ tbegin_
    → d.inst.op ≢ tlbilx
    → d.inst.enc < 2 ^ 32
    → d'.inst.enc < 2 ^ 32
    → bit_and d.inst.enc f.dont_care ≡ bit_and d'.inst.enc f.dont_care
    → d.inst.enc ≢ d'.inst.enc
    → d.inst.args ≢ d'.inst.args
unfolding is_complete_but
decode-enc cover src src' ord d d' f run run' fine fine' by by' tbegin tlbi small small' free
      words =
    let (op_of, args_of) = made_by cover src ord d f run fine by in
    let (op_of', args_of') = made_by cover src' ord d' f run' fine' by' in
    let good : rule_ok f ≡ true = First-rule rule_ok d.inst.enc f inst_formats-rule_ok by in
    let listed : is_complete_but f ≡ true =
      First-rule is_complete_but d.inst.enc f (all→All is_complete_but inst_formats all_complete)
        by in
    let not_tbegin : f.op ≢ tbegin_ = λ e. tbegin (op_of ∙ e) in
    let not_tlbilx : f.op ≢ tlbilx = λ e. tlbi (op_of ∙ e) in
    let complete : is_complete f ≡ true = ground arith in
    λ args. words (
      instruction-word f d.inst.enc d'.inst.enc good complete (First-Matches _ f by)
        (First-Matches _ f by') small small' (sym args_of ∙ args ∙ args_of') free)

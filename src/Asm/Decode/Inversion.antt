-- ===== src/Asm/Decode/Inversion.antt =====
-- power64asm/decode.go, `Decode`: what its result says of the word.
use power.Base.{
  ℕ, suc, ◌≤◌, ◌<◌, Bool, true, Bytes, List, [], ◌∷◌, Option, none, some, length, replicate, ok,
  panic, Outcome-cases, ◌≡◌, refl, arith, sym, ap, ◌∙◌, inl, inr, ltb, ◌⊎◌, Bool-cases,
}
use power.Asm.Inst.{Inst, Arg}
use power.Asm.ArgField.{ArgField}
use power.Asm.InstFormat.{InstFormat}
use power.Asm.Formats.{inst_formats}
use power.Asm.Decode.{err_short, ByteOrder, take, Decoded, zero_inst, decode}
use power.Asm.Decode.Rules.{rule_ok, rule_ok→parts}
use power.Asm.Decode.Table.{Passes, inst_formats-rule_ok}
use power.Asm.Decode.Loops.{First, instruction, arg_meanings, Passes-at, First-cases}
use power.Asm.Decode.Correct.{decode-First, decode_unknown}
use power.Asm.Printable.{Printable}
use power.Asm.Printable.Decoded.{meanings-Printable}

Decoded-inst : (a b : Decoded) → ok a ≡ ok b → a ≡ b
Decoded-inst a b e = cc

-- A property of the rules that pass a test holds of the first one that matches.
pub First-rule :
    (test : InstFormat → Bool) (ui : ℕ) (f : InstFormat)
    → Passes test inst_formats
    → First inst_formats ui f
    → test f ≡ true
First-rule test ui f good (front, back, e, skipped, m) = Passes-at test front back f (rw e at good)

module _ (cover : Option (List Bool)) (src : Bytes) (ord : ByteOrder) where
  -- If `Decode` returns an instruction with no error, then `src` has four bytes or more and the
  -- byte order reads a word from them, and the instruction is the one that the first rule of the
  -- table that matches the word makes of it.
  pub decode_sound :
      (d : Decoded)
      → decode cover src ord ≡ ok d
      → d.err ≡ none
      → (ui : ℕ) × (f : InstFormat) × (4 ≤ length src)
        × (ord.uint32 (take 4 src) ≡ ok ui)
        × First inst_formats ui f
        × (d.inst ≡ instruction f ui)
  decode_sound d run fine = elim (Bool-cases (ltb (length src) 4)) [
    | inl short ↦
        let cut : decode cover src ord
            ≡ ok (record { inst = zero_inst; err = some err_short; cover = cover }) =
          unfold decode in rw short in
        absurd (cc (run, cut, fine))
    | inr enough ↦
        let long : 4 ≤ length src = ground arith in
        elim (Outcome-cases (ord.uint32 (take 4 src))) [
          | inr (q, failed) ↦
              let stopped : decode cover src ord ≡ panic q = unfold decode in rw (enough, failed) in
              absurd (cc (run, stopped))
          | inl (ui, word) ↦
              let result : ((f : InstFormat) × First inst_formats ui f) ⊎ _ =
                First-cases ui inst_formats in
              elim result [
                | inl (f, first) ↦ (
                  ui,
                  f,
                  long,
                  word,
                  first,
                  ap (λ (x : Decoded). x.inst)
                      (Decoded-inst d _
                        (sym run ∙ decode-First cover src ord ui f long word first)),
                )
                | inr never ↦
                    absurd (cc (run, decode_unknown cover src ord ui long word never, fine))
              ]
        ]
  ]

length-nils :
    (rest : List (Option ArgField))
    → length (replicate {A = Option Arg} (length rest) none) ≡ length rest
length-nils [] = refl
length-nils (x ∷ rest) = ap (λ (n : ℕ). suc n) (length-nils rest)

length-arg_meanings :
    (fs : List (Option ArgField)) (ui : ℕ) → length (arg_meanings fs ui) ≡ length fs
unfolding arg_meanings
length-arg_meanings [] ui = refl
length-arg_meanings (none ∷ rest) ui = ap (λ (n : ℕ). suc n) (length-nils rest)
length-arg_meanings (some a ∷ rest) ui = omega (arith, length-arg_meanings rest ui)

-- What the printers ask of an instruction.
abbrev pub IsPrintable : Inst → Type 0
IsPrintable inst = (0 < inst.op) × (length inst.args ≡ 5) × Printable inst.args

pub instruction-IsPrintable :
    (f : InstFormat) (ui : ℕ) → rule_ok f ≡ true → IsPrintable (instruction f ui)
unfolding instruction
instruction-IsPrintable f ui good =
    let parts : (0 < f.op) × (length f.args ≡ 5) × _ = rule_ok→parts f good in
    (parts.0, length-arg_meanings f.args ui ∙ parts.1, meanings-Printable f.args ui parts.2)

-- Every instruction that `Decode` returns with no error has an operation and an array of five
-- arguments. In front of the first nil, its registers are 1 to 128, its condition bits and fields 1
-- to 40, and a register stands behind each offset.
pub decode-IsPrintable :
    (cover : Option (List Bool)) (src : Bytes) (ord : ByteOrder) (d : Decoded)
    → decode cover src ord ≡ ok d
    → d.err ≡ none
    → IsPrintable d.inst
decode-IsPrintable cover src ord d run fine =
    let (ui, f, long, word, first, made) = decode_sound cover src ord d run fine in
    rw made (instruction-IsPrintable f ui (First-rule rule_ok ui f inst_formats-rule_ok first))

-- ===== src/Asm/Decode/Correct.antt =====
-- power64asm/decode.go, `Decode`: its result, from the first rule that matches the word.
use power.Base.{
  ℕ, zero, suc, ◌≤◌, ◌<◌, Bool, true, false, Bytes, List, [], ◌∷◌, ◌++◌, Option, none, some, length,
  ok, Returns, All, ◌≡◌, refl, arith, sym, ap, ◌∙◌, inl, inr, not_lt→ltb, ltb, ltb→lt, ◌↔◌,
  Bool-cases, ◌⊎◌, ◌==◌,
}
use mathlib.Core.List.{append-nil}
use power.Base.Lists.{length-append}
use power.Asm.InstFormat.{InstFormat}
use power.Asm.Formats.{inst_formats}
use power.Asm.Decode.{
  err_short, err_unknown, ByteOrder, take, Decoded, zero_inst, try_rules, make_cover, finish,
  decode,
}
use power.Asm.Decode.Rules.{rule_ok, rule_ok→parts}
use power.Asm.Decode.Table.{Passes, inst_formats-rule_ok}
use power.Asm.Decode.Loops.{
  Matches, First, instruction, start, take_rule, skip_rules, Passes-at, First-cases,
}

length-take : (n : ℕ) (s : Bytes) → n ≤ length s → length (take n s) ≡ n
length-take zero s h = refl
length-take (suc n) [] h = absurd (omega arith)
length-take (suc n) (c ∷ s) h = ap suc (length-take n s (omega arith))

-- The rules of a table that pass the test and of which none in front matches.
try_rules-First :
    (table : List InstFormat) (ui : ℕ) (f : InstFormat)
    → Passes rule_ok table
    → First table ui f
    → (try_rules table ui (start ui) ≡ ok (instruction f ui)) × (0 < f.op)
try_rules-First table ui f good (front, back, e, skipped, m) =
    let here : rule_ok f ≡ true = Passes-at rule_ok front back f (rw e at good) in
    let found : try_rules (front ++ (f ∷ back)) ui (start ui) ≡ ok (instruction f ui) =
      skip_rules ui front (f ∷ back) skipped ∙ take_rule ui f back here m in
    (rw e found, (rule_ok→parts f here).0)

try_rules-none :
    (table : List InstFormat) (ui : ℕ)
    → All (λ g. ¬ Matches ui g) table
    → try_rules table ui (start ui) ≡ ok (start ui)
unfolding try_rules
try_rules-none table ui h =
    ap (λ (t : List InstFormat). try_rules t ui (start ui)) (sym (append-nil table))
    ∙ skip_rules ui table [] h

take-append : (n : ℕ) (s t : Bytes) → n ≤ length s → take n (s ++ t) ≡ take n s
take-append zero s t h = refl
take-append (suc n) [] t h = absurd (omega arith)
take-append (suc n) (c ∷ s) t h = ap (◌∷◌ c) (take-append n s t (omega arith))

module _ (cover : Option (List Bool)) (src : Bytes) (ord : ByteOrder) where
  -- If `src` has four bytes or more, and the number of the first four in the byte order is `ui`,
  -- and a rule is the first of the table that matches `ui`, then `Decode` returns its instruction,
  -- with no error: its operation, the word, length 4, and each argument as the number that its bit
  -- fields stand for.
  pub decode-First :
      (ui : ℕ) (f : InstFormat)
      → 4 ≤ length src
      → ord.uint32 (take 4 src) ≡ ok ui
      → First inst_formats ui f
      → decode cover src ord
        ≡ ok (record { inst = instruction f ui; err = none; cover = make_cover cover })
  unfolding decode finish instruction
  decode-First ui f long word first =
      let (found, positive) = try_rules-First inst_formats ui f inst_formats-rule_ok first in
      let known : (f.op == 0) ≡ false = ground arith in
      rw (not_lt→ltb (length src) 4 long, word, found, known)

  -- If `src` has four bytes or more, and no rule matches the word that they make, `Decode` returns
  -- errUnknown, with an instruction that has the word and the length, and neither an operation nor
  -- arguments.
  pub decode_unknown :
      (ui : ℕ)
      → 4 ≤ length src
      → ord.uint32 (take 4 src) ≡ ok ui
      → All (λ g. ¬ Matches ui g) inst_formats
      → decode cover src ord
        ≡ ok (record { inst = start ui; err = some err_unknown; cover = make_cover cover })
  unfolding decode finish
  decode_unknown ui long word never =
      rw (not_lt→ltb (length src) 4 long, word, try_rules-none inst_formats ui never)

  -- If the byte order reads a number from every four bytes, `Decode` returns on every input, and
  -- its error is errShort exactly if `src` is shorter than four bytes; no panic is reached.
  pub decode-Returns :
      ((s : Bytes) → length s ≡ 4 → Returns (ord.uint32 s))
      → (d : Decoded) × (decode cover src ord ≡ ok d)
        × ((d.err ≡ some err_short) ↔ (length src < 4))
  unfolding decode
  decode-Returns reads = elim (Bool-cases (ltb (length src) 4)) [
    | inl short ↦ (
      record { inst = zero_inst; err = some err_short; cover = cover },
      rw short,
      (λ e. ltb→lt _ _ short, λ h. refl),
    )
    | inr enough ↦
        let long : 4 ≤ length src = ground arith in
        let (ui, word) = reads (take 4 src) (length-take 4 src long) in
        let result : ((f : InstFormat) × First inst_formats ui f) ⊎ _ =
          First-cases ui inst_formats in
        elim result [
          | inl (f, first) ↦ (
            record { inst = instruction f ui; err = none; cover = make_cover cover },
            decode-First ui f long word first,
            (λ e. cc, λ h. absurd (omega arith)),
          )
          | inr never ↦ (
            record { inst = start ui; err = some err_unknown; cover = make_cover cover },
            decode_unknown ui long word never,
            (λ e. cc, λ h. absurd (omega arith)),
          )
        ]
  ]

  -- If `src` has four bytes or more, bytes appended behind it do not change what `Decode` returns.
  pub decode_prefix :
      (more : Bytes) → 4 ≤ length src → decode cover (src ++ more) ord ≡ decode cover src ord
  unfolding decode
  decode_prefix more long =
      let longer : 4 ≤ length (src ++ more) = omega (arith, length-append src more) in
      rw (
        not_lt→ltb (length src) 4 long,
        not_lt→ltb (length (src ++ more)) 4 longer,
        take-append 4 src more long,
      )

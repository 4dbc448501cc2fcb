-- ===== src/Asm/Decode/Shadow.antt =====
-- power64asm/tables.go: rules that stand behind a rule which matches all their words.
use power.Base.{
  ℕ, bit_and, Bool, true, false, not, ◌&&◌, ◌||◌, &&-true, Bytes, List, [], ◌∷◌, ◌++◌, Option, none,
  ok, ◌==◌, ==_iff, All, ◌≡◌, ◌≢◌, refl, arith, sym, ap, ◌∙◌, inl, inr, Bool-cases,
}
use power.Base.And.{bit_and_assoc}
use power.Asm.InstFormat.{InstFormat}
use power.Asm.Inst.{Inst}
use power.Asm.Formats.{inst_formats}
use power.Asm.Decode.{ByteOrder, Decoded, decode}
use power.Asm.Decode.Loops.{Matches, instruction}
use power.Asm.Decode.Inversion.{decode_sound}

-- The mask of `g` is part of that of `f`, and the values agree there.
unfoldable pub covers : InstFormat → InstFormat → Bool
covers g f = bit_and f.mask g.mask == g.mask && bit_and f.value g.mask == g.value

unfoldable pub covered_by : List InstFormat → InstFormat → Bool
unfolding covers
covered_by [] f = false
covered_by (g ∷ seen) f = covers g f || covered_by seen f

-- Each rule for the operation has a rule in front of it that covers it.
unfoldable pub shadowed_from : ℕ → List InstFormat → List InstFormat → Bool
unfolding covered_by
shadowed_from op seen [] = true
shadowed_from op seen (f ∷ rest) =
    (not (f.op == op) || covered_by seen f) && shadowed_from op (f ∷ seen) rest

unfoldable pub is_shadowed : ℕ → Bool
unfolding shadowed_from
is_shadowed op = shadowed_from op [] inst_formats

covers-Matches : (g f : InstFormat) (ui : ℕ) → covers g f ≡ true → Matches ui f → Matches ui g
unfolding covers
covers-Matches g f ui h m =
    let (part, agree) = &&-true (bit_and f.mask g.mask == g.mask) _ h in
    let inside : bit_and f.mask g.mask ≡ g.mask = (==_iff _ _).0 part in
    ap (bit_and ui) (sym inside)
    ∙ sym (bit_and_assoc ui f.mask g.mask)
    ∙ ap (λ (x : ℕ). bit_and x g.mask) m
    ∙ (==_iff _ _).0 agree

-- A rule that is covered by rules which do not match the word does not match it.
covered-Matches :
    (seen : List InstFormat) (f : InstFormat) (ui : ℕ)
    → All (λ g. ¬ Matches ui g) seen
    → Matches ui f
    → covered_by seen f ≡ false
unfolding covered_by
covered-Matches [] f ui skipped m = refl
covered-Matches (g ∷ seen) f ui skipped m = elim (Bool-cases (covers g f)) [
  | inl covered ↦ absurd (skipped.0 (covers-Matches g f ui covered m))
  | inr other ↦ rw (other, covered-Matches seen f ui skipped.1 m) refl
]

shadowed-First :
    (op ui : ℕ) (front back seen : List InstFormat) (f : InstFormat)
    → shadowed_from op seen (front ++ (f ∷ back)) ≡ true
    → All (λ g. ¬ Matches ui g) seen
    → All (λ g. ¬ Matches ui g) front
    → Matches ui f
    → f.op ≢ op
unfolding shadowed_from
shadowed-First op ui [] back seen f h behind skipped m =
    let (here, others) = &&-true (not (f.op == op) || covered_by seen f) _ h in
    let free : covered_by seen f ≡ false = covered-Matches seen f ui behind m in λ e. ground arith
shadowed-First op ui (g ∷ front) back seen f h behind skipped m =
    let (here, others) = &&-true (not (g.op == op) || covered_by seen g) _ h in
    shadowed-First op ui front back (g ∷ seen) f others (skipped.0, behind) skipped.1 m

-- If each rule for an operation stands behind a rule that matches all its words, then `Decode`
-- returns no instruction with that operation: the operation is only in the table.
pub decode-is_shadowed :
    (cover : Option (List Bool)) (src : Bytes) (ord : ByteOrder) (d : Decoded) (op : ℕ)
    → is_shadowed op ≡ true
    → decode cover src ord ≡ ok d
    → d.err ≡ none
    → d.inst.op ≢ op
unfolding is_shadowed instruction
decode-is_shadowed cover src ord d op dead run fine =
    let (ui, f, long, word, (front, back, table, skipped, m), made) =
      decode_sound cover src ord d run fine in
    let same : d.inst.op ≡ f.op = ap (λ (x : Inst). x.op) made in
    let other : f.op ≢ op = shadowed-First op ui front back [] f (rw table at dead) tt skipped m in
    λ e. other (sym same ∙ e)

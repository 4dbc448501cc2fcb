-- ===== src/Asm/Opstr/Names.antt =====
-- power64asm: `Op.String` on the operations that have a name.
use Prim.Native.String.{String}
use power.Base.{
  ℕ, ◌+◌, ◌≤◌, ◌<◌, Bool, true, false, not, ◌&&◌, &&-true, codes, List, [], ◌∷◌, leb, ◌==◌, ==_iff,
  length, ◌≡◌, refl, arith, Bool-cases, inl, inr,
}
use power.Asm.Opstr.{opstr, array_length, element, is_empty, op_string_in, op_string}

-- Entries for the indexes from `k` on, one behind the other, each with a text.
unfoldable consecutive : ℕ → List (ℕ × String) → Bool
consecutive k [] = true
consecutive k ((i, s) ∷ rest) = (i == k && not (is_empty (codes s))) && consecutive (k + 1) rest

array_length-consecutive :
    (k o : ℕ) (names : List (ℕ × String))
    → consecutive k names ≡ true
    → k ≤ o
    → o < k + length names
    → o < array_length names
unfolding consecutive array_length
array_length-consecutive k o [] h lo hi = absurd (omega arith)
array_length-consecutive k o ((i, s) ∷ rest) h lo hi =
    let (here, others) = &&-true (i == k && not (is_empty (codes s))) _ h in
    let at_k : i ≡ k = ground arith in
    elim (Bool-cases (k == o)) [
      | inl same ↦ let e : k ≡ o = (==_iff _ _).0 same in omega arith
      | inr other ↦
          let later : k + 1 ≤ o = ground arith in
          omega (arith, array_length-consecutive (k + 1) o rest others later (omega arith))
    ]

element-consecutive :
    (k o : ℕ) (names : List (ℕ × String))
    → consecutive k names ≡ true
    → k ≤ o
    → o < k + length names
    → is_empty (element names o) ≡ false
unfolding consecutive element
element-consecutive k o [] h lo hi = absurd (omega arith)
element-consecutive k o ((i, s) ∷ rest) h lo hi =
    let (here, others) = &&-true (i == k && not (is_empty (codes s))) _ h in
    let (at_k, full) = &&-true (i == k) _ here in
    elim (Bool-cases (i == o)) [
      | inl same ↦ rw same (ground arith)
      | inr other ↦
          let later : k + 1 ≤ o = ground arith in
          rw other (element-consecutive (k + 1) o rest others later (omega arith))
    ]

abbrev pub op_count : ℕ
op_count = 1324

opstr-consecutive : consecutive 1 opstr ≡ true
unfolding consecutive opstr
opstr-consecutive = refl

length-opstr : length opstr ≡ op_count
unfolding opstr
length-opstr = refl

-- The operations 1 to 1324 have a text in the array that is not empty, and `Op.String` returns it.
pub op_string-element :
    (o : ℕ)
    → 1 ≤ o
    → o ≤ op_count
    → (op_string o ≡ element opstr o) × (is_empty (element opstr o) ≡ false)
unfolding op_string op_string_in
op_string-element o lo hi =
    let inside : o < 1 + length opstr = omega (arith, length-opstr) in
    let full : is_empty (element opstr o) ≡ false =
      element-consecutive 1 o opstr opstr-consecutive lo inside in
    let below : o < array_length opstr =
      array_length-consecutive 1 o opstr opstr-consecutive lo inside in
    let in_array : leb (array_length opstr) o ≡ false = ground arith in
    (rw (in_array, full) refl, full)

-- ===== src/Asm/Decode/Loops.antt =====
-- The two loops of `Decode`: which rule is taken, and what its fields are read as.
use power.Base.{
  ℕ, ◌+◌, ◌<◌, bit_and, Bool, true, List, [], ◌∷◌, ◌++◌, Option, none, some, ◌==◌, length,
  replicate, ok, All, ◌≡◌, refl, arith, sym, ap, ◌∙◌, ◌⊎◌, inl, inr, Bool-cases, ==_iff,
}
use power.Base.Lists.{set_behind, length-snoc, append_snoc}
use power.Asm.ArgField.{ArgField}
use power.Asm.ArgField.Meaning.{IsSound, meaning, parse-meaning}
use power.Asm.Inst.{Inst, Args, Arg, no_args}
use power.Asm.InstFormat.{InstFormat}
use power.Asm.Decode.{zero_inst, parse_args, try_rules}
use power.Asm.Decode.Rules.{Each, rule_ok, fields_ok→Each, rule_ok→parts}
use power.Asm.Decode.Table.{Passes}

abbrev pub Matches : ℕ → InstFormat → Type 0
Matches ui f = bit_and ui f.mask ≡ f.value

-- `f` matches, and no rule in front of it does.
abbrev pub First : List InstFormat → ℕ → InstFormat → Type 0
First table ui f =
    (front : List InstFormat) × (back : List InstFormat) × (table ≡ front ++ (f ∷ back))
    × All (λ g. ¬ Matches ui g) front
    × Matches ui f

-- The arguments that the fields stand for, up to the first nil.
unfoldable pub arg_meanings : List (Option ArgField) → ℕ → Args
arg_meanings [] ui = []
arg_meanings (none ∷ rest) ui = none ∷ replicate (length rest) none
arg_meanings (some a ∷ rest) ui = meaning a ui ∷ arg_meanings rest ui

-- The instruction that a rule makes of a word.
unfoldable pub instruction : InstFormat → ℕ → Inst
unfolding arg_meanings
instruction f ui = record { op = f.op; enc = ui; len = 4; args = arg_meanings f.args ui }

-- The loop writes the arguments one behind the other into the array of nils.
parse_args-meanings :
    (fs : List (Option ArgField)) (ui i : ℕ) (done : Args)
    → Each IsSound fs
    → length done ≡ i
    → parse_args fs ui i (done ++ replicate (length fs) none) ≡ ok (done ++ arg_meanings fs ui)
unfolding parse_args arg_meanings
parse_args-meanings [] ui i done h e = refl
parse_args-meanings (none ∷ rest) ui i done h e = refl
parse_args-meanings (some a ∷ rest) ui i done h e =
    rw
      (
        parse-meaning a ui h.0,
        ← e,
        set_behind done none (meaning a ui) (replicate (length rest) none),
      )
      (parse_args-meanings rest ui (length done + 1) (done ++ (meaning a ui ∷ [])) h.1
          (length-snoc done (meaning a ui))
        ∙ ap ok (append_snoc done (meaning a ui) (arg_meanings rest ui)))

pub Passes-at :
    (test : InstFormat → Bool) (front back : List InstFormat) (f : InstFormat)
    → Passes test (front ++ (f ∷ back))
    → test f ≡ true
Passes-at test [] back f h = h.0
Passes-at test (g ∷ front) back f h = Passes-at test front back f h.1

module _ (ui : ℕ) where
  abbrev pub start : Inst
  start = record zero_inst { len = 4; enc = ui }

  pub take_rule :
      (f : InstFormat) (back : List InstFormat)
      → rule_ok f ≡ true
      → Matches ui f
      → try_rules (f ∷ back) ui start ≡ ok (instruction f ui)
  unfolding try_rules instruction
  take_rule f back good m =
      let parts : (0 < f.op) × (length f.args ≡ 5) × _ = rule_ok→parts f good in
      let five : no_args ≡ replicate (length f.args) none =
        ap (λ (n : ℕ). replicate {A = Option Arg} n none) (sym parts.1) in
      rw (
        (==_iff _ _).1 m,
        five,
        parse_args-meanings f.args ui 0 [] (fields_ok→Each f.args parts.2) refl,
      )

  pub skip_rules :
      (front rest : List InstFormat)
      → All (λ g. ¬ Matches ui g) front
      → try_rules (front ++ rest) ui start ≡ try_rules rest ui start
  unfolding try_rules
  skip_rules [] rest h = refl
  skip_rules (g ∷ front) rest h = elim (Bool-cases (bit_and ui g.mask == g.value)) [
    | inl same ↦ absurd (h.0 ((==_iff _ _).0 same))
    | inr other ↦ rw other (skip_rules front rest h.1)
  ]

  pub First-cases :
      (table : List InstFormat)
      → ((f : InstFormat) × First table ui f) ⊎ All (λ g. ¬ Matches ui g) table
  First-cases [] = inr tt
  First-cases (g ∷ rest) = elim (Bool-cases (bit_and ui g.mask == g.value)) [
    | inl same ↦ inl (g, ([], rest, refl, tt, (==_iff _ _).0 same))
    | inr other ↦ elim (First-cases rest) [
      | inl (f, (front, back, e, skipped, m)) ↦
          inl (f, (g ∷ front, back, ap (◌∷◌ g) e, (ground arith, skipped), m))
      | inr never ↦ inr (ground arith, never)
    ]
  ]

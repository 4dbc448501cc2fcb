-- ===== src/Asm/LoadStore/Remove.antt =====
-- power64asm/gnu.go: `removeArg` as a deletion from a list.
use power.Base.{
  ℕ, zero, suc, ◌+◌, ◌-◌, ◌==◌, false, lt→ltb, not_lt→ltb, [], ◌∷◌, ◌++◌, Option, none, length, ◌≡◌,
  refl, arith, ap, ◌∙◌, sym,
}
use power.Base.Lists.{set_behind, length-append, length-snoc, append_snoc}
use power.Asm.Inst.{Args, Arg}
use power.Asm.LoadStore.{arg_at, remove_loop, remove_arg}

pub arg_at_end :
    (front rest : Args) (x : Option Arg) → arg_at (front ++ (x ∷ rest)) (length front) ≡ x
arg_at_end [] rest x = refl
arg_at_end (y ∷ front) rest x = arg_at_end front rest x

pub arg_at_next :
    (front rest : Args) (x y : Option Arg) → arg_at (front ++ (x ∷ y ∷ rest)) (length front + 1) ≡ y
arg_at_next front rest x y =
    ap (arg_at (front ++ (x ∷ y ∷ rest))) (sym (length-snoc front x))
    ∙ ap (λ (l : Args). arg_at l (length (front ++ (x ∷ []))))
        (sym (append_snoc front x (y ∷ rest)))
    ∙ arg_at_end (front ++ (x ∷ [])) rest y

remove_loop-delete :
    (rest front : Args) (x : Option Arg) (rounds i : ℕ)
    → length front ≡ i
    → i + rounds ≡ 5
    → suc (length rest) ≡ rounds
    → remove_loop rounds i (front ++ (x ∷ rest)) ≡ front ++ (rest ++ (none ∷ []))
unfolding remove_loop
remove_loop-delete rest front x zero i e f g = absurd (omega arith)
remove_loop-delete [] front x (suc zero) i e f g =
    rw (not_lt→ltb (i + 1) 5 (omega arith), ← e, set_behind front x none [])
      (append_snoc front none [])
remove_loop-delete [] front x (suc (suc rounds)) i e f g = absurd (omega arith)
remove_loop-delete (y ∷ rest) front x (suc rounds) i e f g =
    rw
      (
        lt→ltb (i + 1) 5 (omega arith),
        ← e,
        arg_at_next front rest x y,
        set_behind front x y (y ∷ rest),
      )
      (remove_loop-delete rest (front ++ (y ∷ [])) y rounds (length front + 1) (length-snoc front y)
          (omega arith) (omega arith)
        ∙ append_snoc front y (rest ++ (none ∷ [])))

-- In an array of five arguments, `removeArg` takes the one at the index out: those in front of it
-- stay, those behind it move up by one, and the last one is nil.
pub remove_arg-delete :
    (front rest : Args) (x : Option Arg)
    → length (front ++ (x ∷ rest)) ≡ 5
    → remove_arg (front ++ (x ∷ rest)) (length front) ≡ front ++ (rest ++ (none ∷ []))
unfolding remove_arg
remove_arg-delete front rest x five =
    let total : length front + suc (length rest) ≡ 5 =
      omega (arith, length-append front (x ∷ rest)) in
    remove_loop-delete rest front x (5 - length front) (length front) refl (omega arith)
      (omega arith)

-- The same for the element behind `x`.
pub remove_arg_behind :
    (front rest : Args) (x y : Option Arg)
    → length (front ++ (x ∷ y ∷ rest)) ≡ 5
    → remove_arg (front ++ (x ∷ y ∷ rest)) (length front + 1) ≡ front ++ (x ∷ (rest ++ (none ∷ [])))
remove_arg_behind front rest x y five =
    rw
      (
        length-snoc front x,
        append_snoc front x (y ∷ rest),
        append_snoc front x (rest ++ (none ∷ [])),
      )
      at (remove_arg-delete (front ++ (x ∷ [])) rest y (rw (append_snoc front x (y ∷ rest)) five))

pub next_inside :
    (front rest : Args) (x y : Option Arg)
    → length (front ++ (x ∷ y ∷ rest)) ≡ 5
    → (length front + 1 == 5) ≡ false
next_inside front rest x y five =
    let total : length front + suc (suc (length rest)) ≡ 5 =
      omega (arith, length-append front (x ∷ y ∷ rest)) in
    ground arith

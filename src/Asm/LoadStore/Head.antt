-- ===== src/Asm/LoadStore/Head.antt =====
-- power64asm/gnu.go: `removeArg` and the first argument.
use power.Base.{ℕ, zero, suc, ◌+◌, ◌-◌, ◌<◌, [], ◌∷◌, Option, set, ◌≡◌, refl, arith, ◌∙◌}
use power.Asm.Inst.{Args, Arg}
use power.Asm.LoadStore.{arg_at, remove_loop, remove_arg}

set-head : (args : Args) (i : ℕ) (v : Option Arg) → 0 < i → arg_at (set args i v) 0 ≡ arg_at args 0
set-head [] i v h = refl
set-head (x ∷ args) zero v h = absurd (omega arith)
set-head (x ∷ args) (suc i) v h = refl

remove_loop-head :
    (rounds i : ℕ) (args : Args) → 0 < i → arg_at (remove_loop rounds i args) 0 ≡ arg_at args 0
unfolding remove_loop
remove_loop-head zero i args h = refl
remove_loop-head (suc rounds) i args h =
    remove_loop-head rounds (i + 1) _ (omega arith) ∙ set-head args i _ h

pub remove_arg-head : (args : Args) (k : ℕ) → arg_at (remove_arg args (k + 1)) 0 ≡ arg_at args 0
unfolding remove_arg
remove_arg-head args k = remove_loop-head (5 - (k + 1)) (k + 1) args (omega arith)

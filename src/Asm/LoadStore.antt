-- ===== src/Asm/LoadStore.antt =====
-- power64asm/gnu.go: what both printers use, `isLoadStoreOp` and `removeArg`.
pub mod Remove
pub mod Head
use power.Base.{
  ℕ, zero, suc, ◌+◌, ◌-◌, Bool, false, ◌||◌, List, [], ◌∷◌, Option, none, some, ltb, ◌==◌,
  if◌then◌else◌, get_elem?, set,
}
use power.Asm.Inst.{Arg, Args}
use power.Asm.Op.Part00.{
  lbz, lbzu, lbzx, lbzux, lhz, lhzu, lhzx, lhzux, lha, lhau, lhax, lhaux, lwz, lwzu, lwzx, lwzux,
  lwa, lwax, lwaux, ld, ldu, ldx, ldux, lq, stb, stbu, stbx, stbux, sth, sthu, sthx, sthux, stw,
  stwu, stwx, stwux, std, stdu, stdx, stdux, stq, lhbrx, lwbrx, sthbrx, stwbrx,
}

unfoldable pub member : ℕ → List ℕ → Bool
member op [] = false
member op (x ∷ xs) = op == x || member op xs

abbrev load_store_ops : List ℕ
load_store_ops =
    lbz ∷ lbzu ∷ lbzx ∷ lbzux ∷ lhz ∷ lhzu ∷ lhzx ∷ lhzux ∷ lha ∷ lhau ∷ lhax ∷ lhaux ∷ lwz ∷ lwzu
    ∷ lwzx ∷ lwzux ∷ lwa ∷ lwax ∷ lwaux ∷ ld ∷ ldu ∷ ldx ∷ ldux ∷ lq ∷ stb ∷ stbu ∷ stbx ∷ stbux
    ∷ sth ∷ sthu ∷ sthx ∷ sthux ∷ stw ∷ stwu ∷ stwx ∷ stwux ∷ std ∷ stdu ∷ stdx ∷ stdux ∷ stq
    ∷ lhbrx ∷ lwbrx ∷ sthbrx ∷ stwbrx ∷ []

unfoldable pub is_load_store_op : ℕ → Bool
unfolding member
is_load_store_op op = member op load_store_ops

-- The element of the array, at an index below 5.
abbrev pub arg_at : Args → ℕ → Option Arg
arg_at [] i = none
arg_at (x ∷ xs) zero = x
arg_at (x ∷ xs) (suc i) = arg_at xs i

-- The loop of `removeArg` from index `i`, with the rounds that are left.
unfoldable pub remove_loop : ℕ → ℕ → Args → Args
remove_loop zero i args = args
remove_loop (suc rounds) i args =
    remove_loop rounds (i + 1) (set args i (if ltb (i + 1) 5 then arg_at args (i + 1) else none))

unfoldable pub remove_arg : Args → ℕ → Args
unfolding remove_loop
remove_arg args index = remove_loop (5 - index) index args

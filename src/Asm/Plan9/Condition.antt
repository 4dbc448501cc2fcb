-- ===== src/Asm/Plan9/Condition.antt =====
-- The conditions that a branch names, as tests on the result of a comparison, and their negations.
use Prim.Native.Nat.{Ordering}
use power.Base.{ℕ, zero, suc, ◌≤◌, pos, Bool, true, false, not, Bytes, codes, ◌≡◌, refl, arith}
use power.Strings
use power.Asm.Plan9.{rev_cond_map}
use power.Asm.Plan9.Text.{cond_text, bit_name}

pub data Condition : Type 0 where
  less_than greater_than equal_to at_least at_most not_equal : Condition

unfoldable pub holds : Condition → Ordering → Bool
holds less_than Ordering.lt = true
holds less_than other = false
holds greater_than Ordering.gt = true
holds greater_than other = false
holds equal_to Ordering.eq = true
holds equal_to other = false
holds at_least Ordering.lt = false
holds at_least other = true
holds at_most Ordering.gt = false
holds at_most other = true
holds not_equal Ordering.eq = false
holds not_equal other = true

-- On each of the three results of a comparison, `n` holds exactly if `k` does not.
abbrev pub Negates : Condition → Condition → Type 0
Negates n k =
    (holds n Ordering.lt ≡ not (holds k Ordering.lt))
    × (holds n Ordering.eq ≡ not (holds k Ordering.eq))
    × (holds n Ordering.gt ≡ not (holds k Ordering.gt))

-- The names in the branch mnemonics of Go's assembler.
unfoldable pub condition_name : Condition → Bytes
condition_name less_than = codes "LT"
condition_name greater_than = codes "GT"
condition_name equal_to = codes "EQ"
condition_name at_least = codes "GE"
condition_name at_most = codes "LE"
condition_name not_equal = codes "NE"

-- The condition that a comparison leaves in each of the bits 1 to 3, which are lt, gt and eq of
-- field 0.
unfoldable pub bit_condition : ℕ → Condition
bit_condition (suc (suc (suc n))) = equal_to
bit_condition (suc (suc zero)) = greater_than
bit_condition other = less_than

pub rev_cond_map-Negates :
    (op c : ℕ)
    → 1 ≤ c
    → c ≤ 3
    → (n : Condition) × Negates n (bit_condition c)
      × (cond_text op (pos c) ≡ condition_name (bit_condition c))
      × (rev_cond_map (cond_text op (pos c)) ≡ condition_name n)
unfolding rev_cond_map cond_text Strings.str_eq bit_name holds condition_name bit_condition
rev_cond_map-Negates op zero h k = absurd (omega arith)
rev_cond_map-Negates op (suc zero) h k = (at_least, (refl, refl, refl), refl, refl)
rev_cond_map-Negates op (suc (suc zero)) h k = (at_most, (refl, refl, refl), refl, refl)
rev_cond_map-Negates op (suc (suc (suc zero))) h k = (not_equal, (refl, refl, refl), refl, refl)
rev_cond_map-Negates op (suc (suc (suc (suc n)))) h k = absurd (omega arith)

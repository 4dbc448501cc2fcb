-- ===== src/Asm/Opstr.antt =====
-- power64asm: the names of the operations, `opstr` of tables.go and `Op.String` of inst.go.
mod Part00
mod Part01
mod Part02
mod Part03
mod Part04
mod Part05
mod Part06
mod Part07
mod Part08
mod Part09
mod Part10
mod Part11
mod Part12
mod Part13
pub mod Names
use Prim.Native.Nat.{max}
use Prim.Native.String.{String}
use power.Base.{
  ℕ, suc, ◌+◌, pos, Bytes, codes, List, [], ◌∷◌, ◌++◌, Option, none, some, leb, ◌==◌, if◌then◌else◌,
  ◌||◌, Bool, true, false,
}
use power.Fmt
use Part00.{opstr00}
use Part01.{opstr01}
use Part02.{opstr02}
use Part03.{opstr03}
use Part04.{opstr04}
use Part05.{opstr05}
use Part06.{opstr06}
use Part07.{opstr07}
use Part08.{opstr08}
use Part09.{opstr09}
use Part10.{opstr10}
use Part11.{opstr11}
use Part12.{opstr12}
use Part13.{opstr13}

-- The array literal's entries: an index, and the text there.
unfoldable pub opstr : List (ℕ × String)
unfolding opstr00 opstr01 opstr02 opstr03 opstr04 opstr05 opstr06 opstr07 opstr08 opstr09 opstr10
    opstr11 opstr12 opstr13
opstr =
    opstr00
    ++ (opstr01
        ++ (opstr02
            ++ (opstr03
                ++ (opstr04
                    ++ (opstr05
                        ++ (opstr06
                            ++ (opstr07
                                ++ (opstr08
                                    ++ (opstr09
                                        ++ (opstr10 ++ (opstr11 ++ (opstr12 ++ opstr13))))))))))))

-- One more than the largest index.
unfoldable pub array_length : List (ℕ × String) → ℕ
array_length [] = 0
array_length ((k, s) ∷ rest) = max (k + 1) (array_length rest)

-- The element at an index: the empty text where the literal has no entry.
unfoldable pub element : List (ℕ × String) → ℕ → Bytes
element [] o = []
element ((k, s) ∷ rest) o = if k == o then codes s else element rest o

abbrev pub is_empty : Bytes → Bool
is_empty [] = true
is_empty (c ∷ s) = false

unfoldable pub op_string_in : List (ℕ × String) → ℕ → Bytes
unfolding array_length element
op_string_in names o =
    if leb (array_length names) o || is_empty (element names o)
    then codes "Op(" ++ (Fmt.decimal (pos o) ++ codes ")")
    else element names o

-- `Op.String`
unfoldable pub op_string : ℕ → Bytes
unfolding op_string_in
op_string o = op_string_in opstr o

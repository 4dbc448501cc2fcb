-- ===== src/Asm/Inst.antt =====
-- power64asm/inst.go: an instruction and its arguments.
pub mod Strings
use power.Base.{
  ℕ, ◌+◌, ◌-◌, ◌/◌, ◌%◌, ℤ, pos, negsuc, Bytes, codes, List, [], ◌∷◌, ◌++◌, Option, none, some, leb,
  ◌==◌, ◌&&◌, if◌then◌else◌, replicate, get_elem?, Outcome, ok, panic, index_out_of_range, ◌>>=◌,
}
use power.Base.Int.{sub_signed, leb_ℤ}
use power.Fmt
use power.Asm.Opstr

-- A Reg is a uint16 and a CondReg an int8. A Label is a uint32; the immediates are int32.
pub data Arg : Type 0 where
  reg : ℕ → Arg
  cond_reg : ℤ → Arg
  sp_reg : ℕ → Arg
  pc_rel : ℤ → Arg
  label : ℕ → Arg
  imm : ℤ → Arg
  offset : ℤ → Arg

-- The array `[5]Arg`; `none` is nil.
abbrev pub Args : Type 0
Args = List (Option Arg)

abbrev pub no_args : Args
no_args = replicate 5 none

pub record Inst : Type 0 where
  pub op : ℕ
  pub enc : ℕ
  pub len : ℕ
  pub args : Args

-- The constants of type Reg that the code names.
abbrev pub r0 : ℕ
r0 = 1

abbrev pub r30 : ℕ
r30 = 31

abbrev pub r31 : ℕ
r31 = 32

abbrev pub f0 : ℕ
f0 = 33

abbrev pub f31 : ℕ
f31 = 64

abbrev pub v0 : ℕ
v0 = 65

abbrev pub v63 : ℕ
v63 = 128

-- The constants of type CondReg that the code names.
abbrev pub cond0lt : ℤ
cond0lt = pos 1

abbrev pub cond0so : ℤ
cond0so = pos 4

abbrev pub cr0 : ℤ
cr0 = pos 33

-- Sprint, not Sprintf, on the last branch: the verb is printed as it stands.
unfoldable pub reg_string : ℕ → Bytes
reg_string r =
    if leb r0 r && leb r r31
    then codes "r" ++ Fmt.decimal (pos (r - r0))
    else if leb f0 r && leb r f31
    then codes "f" ++ Fmt.decimal (pos (r - f0))
    else if leb v0 r && leb r v63
    then codes "v" ++ Fmt.decimal (pos (r - v0))
    else codes "Reg(%d)" ++ Fmt.decimal (pos r)

-- Division and remainder of the language round towards zero.
abbrev pub quotient : ℤ → ℕ → ℤ
quotient (pos n) d = pos (n / d)
quotient (negsuc n) d = if leb d (n + 1) then negsuc ((n + 1) / d - 1) else pos 0

abbrev pub remainder : ℤ → ℕ → ℤ
remainder (pos n) d = pos (n % d)
remainder (negsuc n) d = if (n + 1) % d == 0 then pos 0 else negsuc ((n + 1) % d - 1)

-- An index into an array of four texts.
unfoldable pub pick : List Bytes → ℤ → Outcome Bytes
pick names (pos n) = elim (get_elem? names n) [ none ↦ panic index_out_of_range | some s ↦ ok s ]
pick names (negsuc n) = panic index_out_of_range

-- `case c >= Cond0LT && c < CR0` comes last, and the default when no case holds.
unfoldable pub cond_reg_string : ℤ → Outcome Bytes
unfolding pick
cond_reg_string c =
    if leb_ℤ cr0 c
    then ok (codes "CR" ++ Fmt.decimal (sub_signed 8 c cr0))
    else if leb_ℤ cond0lt c
    then (do
      bit ←
          pick (codes "LT" ∷ codes "GT" ∷ codes "EQ" ∷ codes "SO" ∷ [])
            (remainder (sub_signed 8 c cond0lt) 4)
      ok (codes "Cond" ++ (Fmt.decimal (quotient (sub_signed 8 c cond0lt) 4) ++ bit)))
    else ok (codes "CondReg(" ++ (Fmt.decimal c ++ codes ")"))

-- The method `String` of each argument type.
unfoldable pub arg_string : Arg → Outcome Bytes
unfolding reg_string cond_reg_string
arg_string (reg r) = ok (reg_string r)
arg_string (cond_reg c) = cond_reg_string c
arg_string (sp_reg s) = ok (codes "SpReg(" ++ (Fmt.decimal (pos s) ++ codes ")"))
arg_string (pc_rel r) = ok (codes "PC" ++ Fmt.hex_plus r)
arg_string (label l) = ok (Fmt.hex (pos l))
arg_string (imm i) = ok (Fmt.decimal i)
arg_string (offset o) = ok (Fmt.decimal_plus o)

-- The loop of `Inst.String` over the arguments, at index `j` with the text so far.
unfoldable pub inst_string_loop : Args → ℕ → Bytes → Outcome Bytes
unfolding arg_string
inst_string_loop [] j buf = ok buf
inst_string_loop (none ∷ rest) j buf = ok buf
inst_string_loop (some arg ∷ rest) j buf = do
  s ← arg_string arg
  inst_string_loop rest (j + 1) (buf ++ ((if j == 0 then codes " " else codes ", ") ++ s))

unfoldable pub inst_string : Inst → Outcome Bytes
unfolding inst_string_loop
inst_string i = inst_string_loop i.args 0 (Opstr.op_string i.op)

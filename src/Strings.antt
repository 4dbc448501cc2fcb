-- ===== src/Strings.antt =====
-- What the program uses of Go's package strings, on ASCII texts.
use power.Base.{
  ℕ, ◌-◌, Bool, true, false, ◌&&◌, Bytes, List, [], ◌∷◌, ◌++◌, leb, ◌==◌, if◌then◌else◌,
}

-- `s == t` of the language
unfoldable pub str_eq : Bytes → Bytes → Bool
str_eq [] [] = true
str_eq [] (d ∷ t) = false
str_eq (c ∷ s) [] = false
str_eq (c ∷ s) (d ∷ t) = c == d && str_eq s t

-- HasPrefix
unfoldable pub has_prefix : Bytes → Bytes → Bool
has_prefix s [] = true
has_prefix [] (d ∷ t) = false
has_prefix (c ∷ s) (d ∷ t) = c == d && has_prefix s t

join_rest : List Bytes → Bytes → Bytes
join_rest [] sep = []
join_rest (s ∷ ss) sep = sep ++ (s ++ join_rest ss sep)

-- Join
unfoldable pub join : List Bytes → Bytes → Bytes
unfolding join_rest
join [] sep = []
join (s ∷ ss) sep = s ++ join_rest ss sep

abbrev pub upper : ℕ → ℕ
upper c = if leb b'a' c && leb c b'z' then c - 32 else c

-- ToUpper
unfoldable pub to_upper : Bytes → Bytes
to_upper [] = []
to_upper (c ∷ s) = upper c ∷ to_upper s

-- ===== src/Asm/InstFormat.antt =====
-- power64asm/decode.go, type instFormat: a decoding rule.
use power.Base.{ℕ, ◌-◌, List, ◌++◌, map, Option, none, some, length, replicate}
use power.Asm.ArgField.{ArgField}

pub record InstFormat : Type 0 where
  pub op : ℕ
  pub mask : ℕ
  pub value : ℕ
  pub dont_care : ℕ
  -- the array `[5]*argField`; `none` is nil
  pub args : List (Option ArgField)

-- A literal of the type: the array literal leaves the elements behind the given ones nil.
abbrev pub rule : ℕ → ℕ → ℕ → ℕ → List ArgField → InstFormat
rule op mask value dont_care fields = record {
  op = op;
  mask = mask;
  value = value;
  dont_care = dont_care;
  args = map some fields ++ replicate (5 - length fields) none;
}

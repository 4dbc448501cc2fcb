-- ===== src/Asm/Decode/Table.antt =====
-- power64asm/tables.go: the tests of `Rules`, run on each rule.
use power.Base.{Bool, true, List, ◌≡◌, refl, All, all, all→All}
use power.Asm.InstFormat.{InstFormat}
use power.Asm.Formats.{inst_formats}
use power.Asm.Decode.Rules.{rule_ok}

abbrev pub Passes : (InstFormat → Bool) → List InstFormat → Type 0
Passes test = All (λ f. test f ≡ true)

table_ok : all rule_ok inst_formats ≡ true
unfolding all rule_ok inst_formats
table_ok = refl

pub inst_formats-rule_ok : Passes rule_ok inst_formats
inst_formats-rule_ok = all→All rule_ok inst_formats table_ok

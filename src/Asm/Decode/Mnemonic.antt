-- ===== src/Asm/Decode/Mnemonic.antt =====
-- The mnemonics of what `Decode` returns.
use power.Base.{
  ◌≤◌, Bool, true, false, ◌&&◌, Bytes, List, Option, none, ok, leb, all, all→All, ◌≡◌, refl, arith,
  ap,
}
use power.Asm.Inst.{Inst}
use power.Asm.InstFormat.{InstFormat}
use power.Asm.Formats.{inst_formats}
use power.Asm.Opstr.{opstr, element, is_empty, op_string}
use power.Asm.Opstr.Names.{op_count, op_string-element}
use power.Asm.Decode.{ByteOrder, Decoded, decode}
use power.Asm.Decode.Loops.{instruction}
use power.Asm.Decode.Inversion.{First-rule, decode_sound}

unfoldable is_named : InstFormat → Bool
is_named f = leb 1 f.op && leb f.op op_count

all_named : all is_named inst_formats ≡ true
unfolding all is_named inst_formats
all_named = refl

is_named→bounds : (f : InstFormat) → is_named f ≡ true → (1 ≤ f.op) × (f.op ≤ op_count)
unfolding is_named
is_named→bounds f h = ground arith

-- Every instruction that `Decode` returns with no error has a mnemonic: the text of its operation in
-- the array is not empty, and `Op.String` returns it.
pub decode-op_string :
    (cover : Option (List Bool)) (src : Bytes) (ord : ByteOrder) (d : Decoded)
    → decode cover src ord ≡ ok d
    → d.err ≡ none
    → (op_string d.inst.op ≡ element opstr d.inst.op) × (is_empty (element opstr d.inst.op) ≡ false)
unfolding instruction
decode-op_string cover src ord d run fine =
    let (ui, f, long, word, first, made) = decode_sound cover src ord d run fine in
    let named : is_named f ≡ true =
      First-rule is_named ui f (all→All is_named inst_formats all_named) first in
    let (lo, hi) = is_named→bounds f named in
    let same : d.inst.op ≡ f.op = ap (λ (x : Inst). x.op) made in
    rw same (op_string-element f.op lo hi)

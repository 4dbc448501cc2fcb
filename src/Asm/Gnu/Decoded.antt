-- ===== src/Asm/Gnu/Decoded.antt =====
-- `GNUSyntax` on what `Decode` returns.
use power.Base.{Bool, Bytes, List, Option, none, ok, ◌≡◌}
use power.Asm.Decode.{ByteOrder, Decoded, decode}
use power.Asm.Decode.Inversion.{decode-IsPrintable}
use power.Asm.Gnu.{gnu_syntax}
use power.Asm.Gnu.Text.{gnu_text}
use power.Asm.Gnu.Text.Printed.{gnu_syntax-gnu_text}

-- On every instruction that `Decode` returns with no error, `GNUSyntax` returns, with no panic, the
-- mnemonic followed by the operands from left to right, each offset joined with its register.
pub gnu_syntax-decode :
    (cover : Option (List Bool)) (src : Bytes) (ord : ByteOrder) (d : Decoded)
    → decode cover src ord ≡ ok d
    → d.err ≡ none
    → gnu_syntax d.inst ≡ ok (gnu_text d.inst)
gnu_syntax-decode cover src ord d run fine =
    let (known, five, printable) = decode-IsPrintable cover src ord d run fine in
    gnu_syntax-gnu_text d.inst known five printable

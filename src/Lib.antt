-- ===== src/Lib.antt =====
-- A disassembler for the Power ISA: the package power64asm.
--
-- The program. `Decode` (power64asm/decode.go) takes the leading four bytes as a word in a byte
-- order, tries the decoding rules of power64asm/tables.go in their order, and reads the arguments of
-- the first rule that matches by the rule's fields (power64asm/field.go): each field is a sequence
-- of bit fields, a scale and a type. `GNUSyntax` (gnu.go) and `plan9Syntax` (plan9.go) print an
-- instruction; both walk over its array of five arguments, and take the register behind an offset out
-- of the array while they walk. The tables are written by power64map from power64.csv, which
-- power64spec makes of the manual; these two programs are not modelled.
--
-- The files.
--   Asm/BitField, Asm/BitFields: field.go. `Parse` and `ParseSigned` return or panic; uint8, uint32
--     and int32 wrap as in the source.
--   Asm/Inst: inst.go, the instruction, its arguments and their `String` methods. `Arg` has a
--     constructor for each type that implements the interface, and `none` is the nil interface.
--   Asm/ArgField, Asm/InstFormat: decode.go, argField, ArgType (its names in ArgField/Names) and
--     instFormat. ArgField/Meaning says what a field stands for with numbers that do not wrap.
--   Asm/Op, Asm/Opstr, Asm/Fields, Asm/Formats: tables.go, all of it: 1324 operations with their
--     names, 70 fields and 1343 rules. An operation is a number, as in the source. Each of the long
--     tables is cut into parts, in the order of the source.
--   Asm/Decode: decode.go, `Decode`. The variable decoderCover is passed in and out. Decode/Rules
--     holds tests that Decode/Table runs on each rule of the table; Decode/Loops says what the two
--     loops do, Decode/Correct and Decode/Inversion what `Decode` does, Decode/Mnemonic what its
--     operations are called, and Decode/Shadow is about rules that stand behind a more general one, and
--     Decode/Word about what an instruction says of its word (BitFields/Masks, ArgField/Injective).
--   Asm/LoadStore: gnu.go, `removeArg` and `isLoadStoreOp`.
--   Asm/Operands: the description of what both printers print of the arguments, and their loop.
--   Asm/Gnu: gnu.go, `GNUSyntax`. Gnu/Text is the text as it is read off the arguments.
--   Asm/Plan9: plan9.go, `plan9Syntax`. Plan9/Text is the texts of the operands; Plan9/Bc and
--     Plan9/Always are about the branches, Plan9/Condition about the conditions that they name.
--   Asm/Printable: the condition on arguments that both printers need.
--   Base, Fmt, Strings: numbers, lists, panics; what the program uses of Go's packages fmt and
--     strings, on ASCII texts. A text is a list of bytes.
--   Asm/Tests, Asm/Witnesses: runs, some of them lines of power64asm/testdata/decode.txt.
--
-- Choices. A panic is a value of `Outcome` that says which one it is. The type int has 64 bits. The
-- loops over the five arguments count the rounds that are left, 5 at the start, as the array has
-- five elements; printing a number takes 64 rounds, enough for 64 bits in each base. The byte order
-- and the symbol table's query are parameters; debugDecode is the constant false, so that its logging
-- does nothing. The last line of `gnuArg` and `plan9Arg` is not reached, as their switches have a
-- case for each type of argument, and it has no counterpart. A slice that `append` shares memory
-- with is modelled by the value that it has after the call.
--
-- Not modelled: power64map and power64spec, which are run by hand to make the tables.
pub mod Asm
pub mod Base
pub mod Fmt
pub mod Strings

-- ===== src/Asm.antt =====
-- power64asm: the decoder and the printers.
pub mod BitField
pub mod BitFields
pub mod Op
pub mod Opstr
pub mod Inst
pub mod ArgField
pub mod InstFormat
pub mod Fields
pub mod Formats
pub mod Decode
pub mod Printable
pub mod LoadStore
pub mod Operands
pub mod Gnu
pub mod Plan9
mod Tests
mod Witnesses

-- ===== src/Asm/Op.antt =====
-- power64asm/tables.go: the constants of type Op, numbered from 1 by the iota.
pub mod Part00
pub mod Part01
pub mod Part02
pub mod Part03
pub mod Part04
pub mod Part05
pub mod Part06
pub mod Part07
pub mod Part08
pub mod Part09
pub mod Part10
pub mod Part11
pub mod Part12
pub mod Part13

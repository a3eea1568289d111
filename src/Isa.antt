-- ===== src/Isa.antt =====
-- src/blf4/isa: the instruction set.
pub mod Opcode
pub mod Words
pub mod Args
pub mod System
pub mod Arith
pub mod Moves
pub mod Jumps
pub mod Table

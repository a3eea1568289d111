-- ===== src/Blf4.antt =====
-- src/blf4/mod.rs: the processor.
pub mod Trap
pub mod Action
pub mod Flags
pub mod Registers
pub mod Context
pub mod Paging
pub mod Access
pub mod Execute
pub mod Mmap

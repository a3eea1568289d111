-- ===== src/Safety.antt =====
-- Invariants of the processor and the memory through the handlers, the instruction, the kernel and
-- the machine, in any mode and in user mode.
pub mod Steady
pub mod Memory
pub mod Access
pub mod Arith
pub mod Moves
pub mod Handlers
pub mod Ranges
pub mod Modes
pub mod Service
pub mod System
pub mod Step
pub mod Isolation
pub mod Kernel
pub mod Machine

-- ===== src/Blf4/Trap.antt =====
-- src/blf4/mod.rs: `TrapMode`, and the number of each mode (`tm as u8`).
use telda.Prelude.{ℕ}

pub data TrapMode : Type 0 where
  invalid sys_call zero_div halt level1_page_fault level2_page_fault : TrapMode
  illegal_operation illegal_read illegal_write illegal_execute : TrapMode
  illegal_handler_return : TrapMode

unfoldable pub trap_code : TrapMode → ℕ
trap_code invalid = 0
trap_code sys_call = 0x5
trap_code zero_div = 0x8
trap_code halt = 0xa
trap_code level1_page_fault = 0xe
trap_code level2_page_fault = 0xf
trap_code illegal_operation = 0x10
trap_code illegal_read = 0x11
trap_code illegal_write = 0x12
trap_code illegal_execute = 0x13
trap_code illegal_handler_return = 0x1f

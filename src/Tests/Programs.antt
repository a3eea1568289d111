-- ===== src/Tests/Programs.antt =====
-- Short programs that are run to their end.
use telda.Prelude.{ℕ, ◌≡◌, refl, false, List, [], ◌∷◌, some, true}
use telda.Mem.Lazy.{LazyMain, lazy_main, lazy_read}
use telda.Blf4.Trap.{halt}
use telda.Blf4.Action.{done, trap}
use telda.Blf4.Context.{physical_read}
use telda.Blf4.Paging.{addr_resolve}
use telda.Blf4.Access.{fetch}
use telda.Blf4.Execute.{execute_instruction, deliver}
use telda.Machine.{Machine, execute_once, run_until_abort}
use telda.Kernel.{EKernel}
use telda.Kernel.Handle.{ekernel, handle_trap}
use telda.Isa.Opcode
use telda.Isa.System
use telda.Isa.Moves
use telda.Isa.Table.{op_handler, entry_at}
use telda.Tests.Setup.{Quiet, quiet_io, machine_at, cpu_at, user_flags, kernel, ram}

abbrev pub two_bytes : List ℕ
two_bytes = Opcode.nop ∷ Opcode.halt ∷ []

pub nop_round : execute_once (machine_at 0x8000 two_bytes) ≡ done tt (machine_at 0x8001 two_bytes)
unfolding execute_once execute_instruction fetch addr_resolve physical_read lazy_read op_handler
    entry_at Moves.nop
nop_round = refl

abbrev pub halted : Machine (LazyMain Quiet) EKernel
halted = record {
  memory = ram two_bytes;
  cpu = cpu_at 0x8002 (record user_flags { trap = true; user_mode = false });
  ekernel = some kernel;
}

-- The kernel gives `halt` back.
pub halt_round : execute_once (machine_at 0x8001 two_bytes) ≡ trap halt halted
unfolding execute_once execute_instruction fetch addr_resolve physical_read lazy_read op_handler
    entry_at System.halt deliver handle_trap
halt_round = refl

pub halt_run : run_until_abort 2 (machine_at 0x8000 two_bytes) ≡ some (trap halt halted)
unfolding execute_once execute_instruction fetch addr_resolve physical_read lazy_read op_handler
    entry_at Moves.nop System.halt deliver handle_trap run_until_abort
halt_run = refl

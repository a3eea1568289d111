-- ===== src/Isa/System.antt =====
-- src/blf4/isa/handlers.rs: traps, modes and physical memory.
use telda.Prelude.{◌*◌, ◌^◌, true, false, not, bit_or, ◌==◌}
use telda.Mem.{MainMemory}
use telda.Blf4.Trap.{TrapMode, invalid, sys_call, illegal_operation, illegal_handler_return}
use telda.Blf4.Action.{Action, raise, raise_if, ◌>>=◌, ◌>>◌}
use telda.Blf4.Context.{
  HandlerContext, physical_read, physical_write, get_br, put_br, get_wr, the_flags, set_flags,
}
use telda.Blf4.Access.{pop_registers}
use telda.Isa.Args.{arg_pair}

abbrev pub Handler : Type 0 → Type 0
Handler M = Action (HandlerContext M) (Unit {0})

module _ {M : Type 0} where
  unfoldable pub n : Handler M
  n = raise invalid

  unfoldable pub halt : Handler M
  halt = raise TrapMode.halt

  unfoldable pub syscall : Handler M
  syscall = raise sys_call

  unfoldable pub ctf : Handler M
  ctf = set_flags (λ f. record f { trap = false })

  -- `if user_mode { return Err(IllegalOperation) }`
  abbrev pub supervisor_only : Handler M
  supervisor_only = do flags ← the_flags; raise_if flags.user_mode illegal_operation

  unfoldable pub usr : Handler M
  usr = do supervisor_only; set_flags (λ f. record f { user_mode = true })

  unfoldable pub vmon : Handler M
  vmon = do supervisor_only; set_flags (λ f. record f { virtual_mode = true })

  unfoldable pub vmoff : Handler M
  vmoff = do supervisor_only; set_flags (λ f. record f { virtual_mode = false })

module _ {M : Type 0} ⦃mm : MainMemory M⦄ where
  unfoldable pub reth : Handler M
  reth = do
    flags ← the_flags
    raise_if (not flags.trap) illegal_handler_return
    pop_registers
    set_flags (λ f. record f { trap = false })

  unfoldable pub pstore : Handler M
  pstore = do
    supervisor_only
    (br1, wr) ← arg_pair
    (br2, z) ← arg_pair
    raise_if (not (z == 0)) invalid
    high_byte ← get_br br1
    low_wide ← get_wr wr
    let addr = bit_or low_wide (high_byte * 2 ^ 16)
    val ← get_br br2
    physical_write addr val

  unfoldable pub pload : Handler M
  pload = do
    supervisor_only
    (br1, br2) ← arg_pair
    (wr, z) ← arg_pair
    raise_if (not (z == 0)) invalid
    high_byte ← get_br br2
    low_wide ← get_wr wr
    let addr = bit_or low_wide (high_byte * 2 ^ 16)
    val ← physical_read addr
    put_br br1 val

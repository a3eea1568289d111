-- ===== src/Blf4/Execute.antt =====
-- src/blf4/mod.rs: `execute_instruction`, and the delivery of a trap to the program's handler.
use telda.Prelude.{true, false, ◌==◌, if◌then◌else◌}
use telda.Mem.{MainMemory}
use telda.Blf4.Trap.{TrapMode, trap_code}
use telda.Blf4.Action.{Action, Outcome, done, trap, panic, gets, raise, ◌>>=◌, ◌>>◌}
use telda.Blf4.Registers.{r1}
use telda.Blf4.Context.{HandlerContext, set_flags, set_program_counter, put_wr}
use telda.Blf4.Access.{fetch, push_registers}
use telda.Isa.Table.{op_handler}

module _ {M : Type 0} ⦃mm : MainMemory M⦄ where
  -- The registers are saved in the mode that the handler runs in.
  unfoldable pub enter : TrapMode → Action (HandlerContext M) (Unit {0})
  enter tm = do
    push_registers
    trap_handler ← gets (λ c. c.cpu.trap_handler)
    set_program_counter trap_handler
    put_wr r1 (trap_code tm)

  unfoldable pub deliver : TrapMode → Action (HandlerContext M) (Unit {0})
  deliver tm = do
    set_flags (λ f. record f { trap = true; user_mode = false })
    trap_handler ← gets (λ c. c.cpu.trap_handler)
    if trap_handler == 0 then raise tm else enter tm

  abbrev pub or_deliver :
      Outcome (HandlerContext M) (Unit {0}) → Outcome (HandlerContext M) (Unit {0})
  or_deliver (done a c) = done a c
  or_deliver (trap tm c) = deliver tm c
  or_deliver panic = panic

  -- A trap while the opcode is fetched is returned at once.
  unfoldable pub execute_instruction : Action (HandlerContext M) (Unit {0})
  execute_instruction = do opcode ← fetch; (λ c. or_deliver (op_handler opcode c))

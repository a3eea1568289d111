-- ===== src/Safety/Isolation.antt =====
-- src/blf4/mod.rs: what one instruction of a user program can change. The supervisor's parts are
-- the two modes and the registers of the page table and of the trap handler.
use telda.Prelude.{◌≡◌, ◌≢◌, arith, ◌==◌, inl, inr, Bool-cases}
use telda.Mem.{MainMemory, MemoryLaws}
use telda.Blf4.Trap.{TrapMode, trap_code}
use telda.Blf4.Action.{Outcome, done, trap, Ensures, returns, traps, Any, after}
use telda.Blf4.Registers.{write_wr, r1}
use telda.Blf4.Context.{HandlerContext, put_wr}
use telda.Blf4.Access.{fetch, push_registers}
use telda.Blf4.Execute.{enter, deliver, or_deliver, execute_instruction}
use telda.Isa.Table.{op_handler}
use telda.Safety.Steady.{Holds, valid, set_gp-IsByte}
use telda.Safety.Modes.{Protected, IsUser, IsUser-IsWritable}
use telda.Safety.Service.{IsHandling, IsHandling-IsSteady, IsUser-IsHandling, IsHandling-with_bytes}
use telda.Safety.Access.{fetch-IsByte, push_registers-Keeps}
use telda.Safety.System.{system_handlers-IsUser}
use telda.Safety.Step.{op_handler-Keeps, trap_code-IsByte}

module _ {M : Type 0} {mm : MainMemory M} (laws : MemoryLaws mm) (p : Protected) where
  -- How the delivery of the trap `tm` ends. In the handler, which starts at its address with the
  -- trap's number in the first register; or, without a handler, with the trap; or, when the
  -- registers cannot be saved, with another trap.
  pub data Delivered (tm : TrapMode) : Outcome (HandlerContext M) (Unit {0}) → Type 0 where
    enters :
        {c : HandlerContext M}
        → p.trap_handler ≢ 0
        → Holds laws (IsHandling p) c
        → c.cpu.program_counter ≡ p.trap_handler
        → c.cpu.general_purposes 0 ≡ trap_code tm
        → c.cpu.general_purposes 1 ≡ 0
        → Delivered tm (done tt c)
    unhandled :
        {c : HandlerContext M}
        → p.trap_handler ≡ 0
        → Holds laws (IsHandling p) c
        → Delivered tm (trap tm c)
    unsaved :
        {c : HandlerContext M} {tm' : TrapMode}
        → p.trap_handler ≢ 0
        → Holds laws (IsHandling p) c
        → Delivered tm (trap tm' c)

  -- How one instruction of a user program ends: in user mode; with a trap that the fetch of the
  -- opcode raised, which is not delivered; or with the delivery of a trap.
  pub data UserStep : Outcome (HandlerContext M) (Unit {0}) → Type 0 where
    runs : {c : HandlerContext M} → Holds laws (IsUser p) c → UserStep (done tt c)
    faults : {c : HandlerContext M} {tm : TrapMode} → Holds laws (IsUser p) c → UserStep (trap tm c)
    delivers :
        {o : Outcome (HandlerContext M) (Unit {0})} (tm : TrapMode) → Delivered tm o → UserStep o

module _ {M : Type 0} ⦃mm : MainMemory M⦄ (laws : MemoryLaws mm) (p : Protected) where
  entered :
      (tm : TrapMode) (c : HandlerContext M)
      → p.trap_handler ≢ 0
      → Holds laws (IsHandling p) c
      → Delivered laws p tm (
          put_wr r1
            (trap_code tm)
            (record c { cpu = record c.cpu { program_counter = c.cpu.trap_handler } }))
  unfolding write_wr
  entered tm c n i =
      let b = trap_code-IsByte tm in
      let steady = IsHandling-IsSteady p in
      enters n
        (valid
          (IsHandling-with_bytes p _ _
            (steady.program_counter c.cpu _ i.cpu i.cpu.ranges.trap_handler)
            (set_gp-IsByte _ 1 _ (set_gp-IsByte _ 0 _ i.cpu.ranges.bytes (omega arith))
              (omega arith)))
          i.mem)
        i.cpu.trap_handler (omega arith) (omega arith)

  enter-Delivered :
      (tm : TrapMode) (c : HandlerContext M)
      → p.trap_handler ≢ 0
      → Holds laws (IsHandling p) c
      → Delivered laws p tm (enter tm c)
  unfolding enter
  enter-Delivered tm c n i =
      after (Delivered laws p tm) (push_registers c) _
        (push_registers-Keeps laws (IsHandling-IsSteady p) c i) (λ _ d _ j. entered tm d n j)
        (λ _ d j. unsaved n j)

  deliver-Delivered :
      (tm : TrapMode) (c : HandlerContext M)
      → Holds laws (IsUser p) c
      → Delivered laws p tm (deliver tm c)
  unfolding deliver
  deliver-Delivered tm c i =
      let j : Holds laws (IsHandling p) _ = valid (IsUser-IsHandling p c.cpu i.cpu) i.mem in
      let e = i.cpu.trap_handler in
      elim (Bool-cases (c.cpu.trap_handler == 0)) [
        | inl no_handler ↦ rw no_handler (unhandled (ground (arith, e)) j)
        | inr handler ↦ rw handler (enter-Delivered tm _ (ground (arith, e)) j)
      ]

  or_deliver-UserStep :
      (o : Outcome (HandlerContext M) (Unit {0}))
      → Ensures (Holds laws (IsUser p)) Any o
      → UserStep laws p (or_deliver o)
  or_deliver-UserStep o (returns _ i) = runs i
  or_deliver-UserStep o (traps i) = delivers _ (deliver-Delivered _ _ i)

  -- In user mode, with registers in range and a memory whose accesses below 2 ^ 24 do not panic,
  -- one instruction, whatever its opcode, does not panic and leaves the register of the page
  -- table, that of the trap handler and virtual mode as they were, of which the first is only the
  -- address of the table: it ends in user mode, with a trap of the opcode's fetch in user mode,
  -- or with the delivery of a trap, which enters the handler at its address with the trap's
  -- number in R1, or stops with a trap.
  pub execute_instruction-UserStep :
      (c : HandlerContext M) → Holds laws (IsUser p) c → UserStep laws p (execute_instruction c)
  unfolding execute_instruction
  execute_instruction-UserStep c i =
      after (UserStep laws p) (fetch c) _ (fetch-IsByte laws (IsUser-IsWritable p).steady c i)
        (λ opcode d _ j.
          or_deliver-UserStep (op_handler opcode d) (
            op_handler-Keeps laws (IsUser-IsWritable p) (system_handlers-IsUser laws p) opcode d j))
        (λ _ d j. faults j)

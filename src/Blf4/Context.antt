-- ===== src/Blf4/Context.antt =====
-- src/blf4/mod.rs: `HandlerContext`, the processor and the memory that an instruction works on.
use telda.Prelude.{ℕ, Option, none, some}
use telda.Mem.{MainMemory}
use telda.Blf4.Action.{Action, Outcome, done, trap, panic, modify, gets}
use telda.Blf4.Flags.{Blf4Flags}
use telda.Blf4.Registers.{Blf4, read_br, write_br, read_wr, write_wr, ByteRegister, WideRegister}

pub record HandlerContext (M : Type 0) : Type 0 where
  pub cpu : Blf4
  pub mem : M

-- An operation of the processor alone, run in a context.
abbrev pub in_context : {M A : Type 0} → M → Outcome Blf4 A → Outcome (HandlerContext M) A
in_context m (done a cpu) = done a (record { cpu = cpu; mem = m })
in_context m (trap tm cpu) = trap tm (record { cpu = cpu; mem = m })
in_context m panic = panic

-- An operation of the memory alone.
abbrev pub of_read : {M A : Type 0} → Blf4 → Option (A × M) → Outcome (HandlerContext M) A
of_read cpu none = panic
of_read cpu (some (a, m)) = done a (record { cpu = cpu; mem = m })

abbrev pub of_write : {M : Type 0} → Blf4 → Option M → Outcome (HandlerContext M) (Unit {0})
of_write cpu none = panic
of_write cpu (some m) = done tt (record { cpu = cpu; mem = m })

module _ {M : Type 0} where
  abbrev pub on_cpu : {A : Type 0} → Action Blf4 A → Action (HandlerContext M) A
  on_cpu op c = in_context c.mem (op c.cpu)

  abbrev pub get_br : ByteRegister → Action (HandlerContext M) ℕ
  get_br r = on_cpu (read_br r)

  abbrev pub put_br : ByteRegister → ℕ → Action (HandlerContext M) (Unit {0})
  put_br r v = on_cpu (write_br r v)

  abbrev pub get_wr : WideRegister → Action (HandlerContext M) ℕ
  get_wr r = on_cpu (read_wr r)

  abbrev pub put_wr : WideRegister → ℕ → Action (HandlerContext M) (Unit {0})
  put_wr r v = on_cpu (write_wr r v)

  -- Fields of the processor, read and assigned.
  abbrev pub the_flags : Action (HandlerContext M) Blf4Flags
  the_flags = gets λ c. c.cpu.flags

  abbrev pub set_flags : (Blf4Flags → Blf4Flags) → Action (HandlerContext M) (Unit {0})
  set_flags f = modify λ c. record c { cpu = record c.cpu { flags = f c.cpu.flags } }

  abbrev pub the_stack : Action (HandlerContext M) ℕ
  the_stack = gets λ c. c.cpu.stack

  abbrev pub set_stack : ℕ → Action (HandlerContext M) (Unit {0})
  set_stack w = modify λ c. record c { cpu = record c.cpu { stack = w } }

  abbrev pub the_program_counter : Action (HandlerContext M) ℕ
  the_program_counter = gets λ c. c.cpu.program_counter

  abbrev pub set_program_counter : ℕ → Action (HandlerContext M) (Unit {0})
  set_program_counter w = modify λ c. record c { cpu = record c.cpu { program_counter = w } }

  abbrev pub set_link : ℕ → Action (HandlerContext M) (Unit {0})
  set_link w = modify λ c. record c { cpu = record c.cpu { link = w } }

module _ {M : Type 0} ⦃mm : MainMemory M⦄ where
  unfoldable pub physical_read : ℕ → Action (HandlerContext M) ℕ
  physical_read addr c = of_read c.cpu (mm.read addr c.mem)

  unfoldable pub physical_write : ℕ → ℕ → Action (HandlerContext M) (Unit {0})
  physical_write addr val c = of_write c.cpu (mm.write addr val c.mem)

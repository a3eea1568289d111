-- ===== src/Blf4/Access.antt =====
-- src/blf4/mod.rs: fetching, reading and writing at virtual addresses, the stack, and the saving
-- of all registers.
pub mod Stack
use telda.Prelude.{ℕ, List, [], ◌∷◌, add16, sub16, low_byte, high_byte, wide_of}
use telda.Mem.{MainMemory}
use telda.Blf4.Action.{Action, pure, ◌>>=◌, ◌>>◌}
use telda.Blf4.Flags.{flags_to_wide, flags_of_wide}
use telda.Blf4.Registers.{WideRegister}
use telda.Blf4.Context.{
  HandlerContext, physical_read, physical_write, get_wr, put_wr, the_flags, set_flags, the_stack,
  set_stack, the_program_counter, set_program_counter,
}
use telda.Blf4.Paging.{AccessMode, addr_resolve}

-- The registers `1..=15`, and the same in reverse.
abbrev pub saved_registers : List WideRegister
saved_registers = 1 ∷ 2 ∷ 3 ∷ 4 ∷ 5 ∷ 6 ∷ 7 ∷ 8 ∷ 9 ∷ 10 ∷ 11 ∷ 12 ∷ 13 ∷ 14 ∷ 15 ∷ []

abbrev pub restored_registers : List WideRegister
restored_registers = 15 ∷ 14 ∷ 13 ∷ 12 ∷ 11 ∷ 10 ∷ 9 ∷ 8 ∷ 7 ∷ 6 ∷ 5 ∷ 4 ∷ 3 ∷ 2 ∷ 1 ∷ []

module _ {M : Type 0} ⦃mm : MainMemory M⦄ where
  -- The program counter moves on before the address is looked up.
  unfoldable pub fetch : Action (HandlerContext M) ℕ
  fetch = do
    pc ← the_program_counter
    set_program_counter (add16 pc 1)
    addr ← addr_resolve pc AccessMode.execute
    physical_read addr

  unfoldable pub read : ℕ → Action (HandlerContext M) ℕ
  read addr = do addr ← addr_resolve addr AccessMode.read; physical_read addr

  unfoldable pub write : ℕ → ℕ → Action (HandlerContext M) (Unit {0})
  write addr val = do addr ← addr_resolve addr AccessMode.write; physical_write addr val

  unfoldable pub read_wide : ℕ → Action (HandlerContext M) ℕ
  read_wide addr = do lower ← read addr; higher ← read (add16 addr 1); pure (wide_of lower higher)

  unfoldable pub write_wide : ℕ → ℕ → Action (HandlerContext M) (Unit {0})
  write_wide addr val = do write addr (low_byte val); write (add16 addr 1) (high_byte val)

  unfoldable pub pushw : ℕ → Action (HandlerContext M) (Unit {0})
  pushw w = do stack ← the_stack; set_stack (sub16 stack 2); stack ← the_stack; write_wide stack w

  unfoldable pub pushb : ℕ → Action (HandlerContext M) (Unit {0})
  pushb b = do stack ← the_stack; set_stack (sub16 stack 1); stack ← the_stack; write stack b

  unfoldable pub popw : Action (HandlerContext M) ℕ
  popw = do
    stack ← the_stack
    w ← read_wide stack
    stack ← the_stack
    set_stack (add16 stack 2)
    pure w

  unfoldable pub popb : Action (HandlerContext M) ℕ
  popb = do stack ← the_stack; b ← read stack; stack ← the_stack; set_stack (add16 stack 1); pure b

  unfoldable pub push_each : List WideRegister → Action (HandlerContext M) (Unit {0})
  push_each [] = pure tt
  push_each (r ∷ rs) = do w ← get_wr r; pushw w; push_each rs

  unfoldable pub pop_each : List WideRegister → Action (HandlerContext M) (Unit {0})
  pop_each [] = pure tt
  pop_each (r ∷ rs) = do w ← popw; put_wr r w; pop_each rs

  unfoldable pub push_registers : Action (HandlerContext M) (Unit {0})
  unfolding push_each
  push_registers = do flags ← the_flags; pushw (flags_to_wide flags); push_each saved_registers

  unfoldable pub pop_registers : Action (HandlerContext M) (Unit {0})
  unfolding pop_each
  pop_registers = do pop_each restored_registers; w ← popw; set_flags (λ _. flags_of_wide w)

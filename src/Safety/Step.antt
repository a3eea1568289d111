-- ===== src/Safety/Step.antt =====
-- src/blf4/mod.rs: what one call of `execute_instruction` can do, whatever the opcode.
use telda.Prelude.{
  ℕ, arith, true, false, List, [], ◌∷◌, All, ◌==◌, inl, inr, Bool-cases, IsByte, IsWide,
}
use telda.Mem.{MainMemory, MemoryLaws}
use telda.Blf4.Trap.{TrapMode, trap_code}
use telda.Blf4.Action.{
  raise, Outcome, Ensures, returns, traps, Keeps, Any, bind, bind_const, Keeps-raise, Keeps-if,
  gets,
}
use telda.Blf4.Registers.{Blf4, IsBlf4, r1}
use telda.Blf4.Context.{HandlerContext}
use telda.Blf4.Execute.{enter, deliver, or_deliver, execute_instruction}
use telda.Isa.System.{n}
use telda.Isa.Table.{entry_at, system_handlers, user_handlers, op_handler}
use telda.Safety.Steady.{IsWritable, Holds}
use telda.Safety.Ranges.{IsBlf4-IsWritable}
use telda.Safety.Access.{
  Safe, fetch-IsByte, push_registers-Keeps, set_program_counter-Keeps, put_wr-Keeps,
}
use telda.Safety.Handlers.{user_handlers-Keeps}
use telda.Safety.System.{assign_flags-Fine, system_handlers-Fine}

module _ {A : Type 0} (P : A → Type 0) where
  -- A property of the entries and of the default is one of every lookup.
  entry_at-All :
      (table : List (ℕ × A)) (d : A) (o : ℕ) → All (λ e. P e.1) table → P d → P (entry_at table d o)
  unfolding entry_at
  entry_at-All [] d o h hd = hd
  entry_at-All (e ∷ table) d o h hd = elim (Bool-cases (e.0 == o)) [
    | inl eq ↦ rw eq h.0
    | inr eq ↦ rw eq (entry_at-All table d o h.1 hd)
  ]

pub trap_code-IsByte : (tm : TrapMode) → IsByte (trap_code tm)
unfolding trap_code
trap_code-IsByte tm = grind arith

module _ {M : Type 0} ⦃mm : MainMemory M⦄ (laws : MemoryLaws mm) {J : Blf4 → Type 0}
    (writable : IsWritable J) where
  pub op_handler-Keeps :
      All (λ e. Safe laws writable e.1) system_handlers
      → (o : ℕ) → Safe laws writable (op_handler o)
  unfolding op_handler n
  op_handler-Keeps h o = entry_at-All (Safe laws writable) system_handlers _ o h (
      entry_at-All (Safe laws writable) user_handlers n o (user_handlers-Keeps laws writable)
        Keeps-raise)

module _ {M : Type 0} ⦃mm : MainMemory M⦄ (laws : MemoryLaws mm) where
  the_trap_handler-Fine : Keeps (Holds laws IsBlf4) IsWide (gets λ c. c.cpu.trap_handler)
  the_trap_handler-Fine c i = returns i.cpu.trap_handler i

  raise-Fine : (tm : TrapMode) → Safe laws IsBlf4-IsWritable (raise tm)
  raise-Fine tm = Keeps-raise

  enter-Fine : (tm : TrapMode) → Safe laws IsBlf4-IsWritable (enter tm)
  unfolding enter
  enter-Fine tm = bind_const (push_registers-Keeps laws IsBlf4-IsWritable.steady) (
      bind the_trap_handler-Fine λ h hh.
        bind_const (set_program_counter-Keeps laws IsBlf4-IsWritable.steady h hh) (
          put_wr-Keeps laws IsBlf4-IsWritable r1 (trap_code tm) (omega arith)
            (omega (arith, trap_code-IsByte tm))))

  deliver-Fine : (tm : TrapMode) → Safe laws IsBlf4-IsWritable (deliver tm)
  unfolding deliver
  deliver-Fine tm =
      bind_const (assign_flags-Fine laws (λ f. record f { trap = true; user_mode = false }))
        (bind the_trap_handler-Fine λ h _. Keeps-if (h == 0) (raise-Fine tm) (enter-Fine tm))

  or_deliver-Fine :
      (o : Outcome (HandlerContext M) (Unit {0}))
      → Ensures (Holds laws IsBlf4) Any o
      → Ensures (Holds laws IsBlf4) Any (or_deliver o)
  or_deliver-Fine o (returns h i) = returns h i
  or_deliver-Fine o (traps i) = deliver-Fine _ _ i

  -- Whatever the opcode and the state: if the registers are in range and the memory obeys its
  -- laws, one instruction does not panic and ends, with or without a trap, in such a state.
  pub execute_instruction-IsBlf4 :
      (c : HandlerContext M)
      → Holds laws IsBlf4 c
      → Ensures (Holds laws IsBlf4) Any (execute_instruction c)
  unfolding execute_instruction
  execute_instruction-IsBlf4 = bind (fetch-IsByte laws IsBlf4-IsWritable.steady) λ opcode _ c i.
      or_deliver-Fine (op_handler opcode c)
        (op_handler-Keeps laws IsBlf4-IsWritable (system_handlers-Fine laws) opcode c i)

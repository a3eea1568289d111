-- ===== src/Safety/System.antt =====
-- src/blf4/isa/handlers.rs: traps, modes and physical memory, under the two invariants of Modes.
use telda.Prelude.{
  ℕ, List, ◌∷◌, drop, ◌*◌, ◌^◌, ◌<◌, ◌≡◌, arith, Bool, true, false, not, bit_or, ◌==◌, All, ◌&◌,
  IsByte, IsWide,
}
use telda.Prelude.Bits.{bit_or-lt}
use telda.Mem.{MainMemory, MemoryLaws}
use telda.Blf4.Trap.{TrapMode, invalid, illegal_handler_return, illegal_operation}
use telda.Blf4.Action.{
  Action, Ensures, returns, traps, Keeps, Any, bind, bind_const, Keeps-raise, Keeps-raise_if,
  Ensures-if, raise_if, ◌>>=◌, ◌>>◌,
}
use telda.Blf4.Flags.{Blf4Flags, flags_of_wide}
use telda.Blf4.Registers.{Blf4, write_wr}
use telda.Blf4.Context.{set_flags, put_wr}
use telda.Blf4.Access.{pop_registers, pop_each, restored_registers, popw}
use telda.Isa.System.{
  Handler, n, halt, syscall, ctf, usr, vmon, vmoff, reth, pstore, pload, supervisor_only,
}
use telda.Isa.Table.{system_handlers}
use telda.Safety.Steady.{IsWritable, Holds, valid, Keeps-on_cpu}
use telda.Safety.Ranges.{IsBlf4-IsWritable, with_flags}
use telda.Safety.Modes.{Protected, IsUser, IsUser-IsWritable}
use telda.Safety.Memory.{physical_read-IsByte, physical_write-Keeps}
use telda.Safety.Access.{
  Safe, get_br-IsByte, get_wr-IsWide, put_br-Keeps, the_flags-Keeps, popw-IsWide, pop_each-Keeps,
  arg_pair-IsRegister,
}

module _ {M : Type 0} ⦃mm : MainMemory M⦄ (laws : MemoryLaws mm) {J : Blf4 → Type 0}
    (writable : IsWritable J) where
  n-Keeps : Safe laws writable n
  unfolding n
  n-Keeps = Keeps-raise

  halt-Keeps : Safe laws writable halt
  unfolding halt
  halt-Keeps = Keeps-raise

  syscall-Keeps : Safe laws writable syscall
  unfolding syscall
  syscall-Keeps = Keeps-raise

-- The supervisor's side: the flags are free, so only the ranges are kept.
module _ {M : Type 0} ⦃mm : MainMemory M⦄ (laws : MemoryLaws mm) where
  pub assign_flags-Fine : (f : Blf4Flags → Blf4Flags) → Safe laws IsBlf4-IsWritable (set_flags f)
  assign_flags-Fine f c i = returns tt (valid (with_flags c.cpu i.cpu _) i.mem)

  supervisor_only-Fine : Safe laws IsBlf4-IsWritable supervisor_only
  supervisor_only-Fine =
      bind (the_flags-Keeps laws IsBlf4-IsWritable.steady)
        λ f _. Keeps-raise_if f.user_mode illegal_operation

  ctf-Fine : Safe laws IsBlf4-IsWritable ctf
  unfolding ctf
  ctf-Fine = assign_flags-Fine _

  usr-Fine : Safe laws IsBlf4-IsWritable usr
  unfolding usr
  usr-Fine = bind_const supervisor_only-Fine (assign_flags-Fine _)

  vmon-Fine : Safe laws IsBlf4-IsWritable vmon
  unfolding vmon
  vmon-Fine = bind_const supervisor_only-Fine (assign_flags-Fine _)

  vmoff-Fine : Safe laws IsBlf4-IsWritable vmoff
  unfolding vmoff
  vmoff-Fine = bind_const supervisor_only-Fine (assign_flags-Fine _)

  reth-Fine : Safe laws IsBlf4-IsWritable reth
  unfolding reth pop_registers
  reth-Fine = bind (the_flags-Keeps laws IsBlf4-IsWritable.steady) λ f _.
      bind_const (Keeps-raise_if (not f.trap) illegal_handler_return) (
        bind_const
          (bind_const (pop_each-Keeps laws IsBlf4-IsWritable restored_registers (omega arith)) (
            bind (popw-IsWide laws IsBlf4-IsWritable.steady)
              λ w _. assign_flags-Fine (λ _. flags_of_wide w)))
          (assign_flags-Fine (λ f. record f { trap = false })))

  physical-lt : (high low : ℕ) → IsByte high → IsWide low → bit_or low (high * 2 ^ 16) < 2 ^ 24
  physical-lt high low hh hl = bit_or-lt 24 low (high * 2 ^ 16) (omega arith) (omega arith)

  pstore-Fine : Safe laws IsBlf4-IsWritable pstore
  unfolding pstore
  pstore-Fine = bind_const supervisor_only-Fine (
      bind (arg_pair-IsRegister laws IsBlf4-IsWritable.steady) λ (b1, w) h.
        bind (arg_pair-IsRegister laws IsBlf4-IsWritable.steady) λ (b2, z) h2.
          bind_const (Keeps-raise_if (not (z == 0)) invalid) (
            bind (get_br-IsByte laws IsBlf4-IsWritable.steady b1 h.0) λ high hh.
              bind (get_wr-IsWide laws IsBlf4-IsWritable.steady w h.1) λ low hl.
                bind (get_br-IsByte laws IsBlf4-IsWritable.steady b2 h2.0)
                  λ v hv. physical_write-Keeps laws _ v (physical-lt high low hh hl) hv))

  pload-Fine : Safe laws IsBlf4-IsWritable pload
  unfolding pload
  pload-Fine = bind_const supervisor_only-Fine (
      bind (arg_pair-IsRegister laws IsBlf4-IsWritable.steady) λ (b1, b2) h.
        bind (arg_pair-IsRegister laws IsBlf4-IsWritable.steady) λ (w, z) h2.
          bind_const (Keeps-raise_if (not (z == 0)) invalid) (
            bind (get_br-IsByte laws IsBlf4-IsWritable.steady b2 h.1) λ high hh.
              bind (get_wr-IsWide laws IsBlf4-IsWritable.steady w h2.0) λ low hl.
                bind (physical_read-IsByte laws _ (physical-lt high low hh hl))
                  λ v hv. put_br-Keeps laws IsBlf4-IsWritable b1 v h.0 hv))

  pub system_handlers-Fine : All (λ e. Safe laws IsBlf4-IsWritable e.1) system_handlers
  system_handlers-Fine =
      n-Keeps laws IsBlf4-IsWritable
      & halt-Keeps laws IsBlf4-IsWritable
      & ctf-Fine
      & syscall-Keeps laws IsBlf4-IsWritable
      & reth-Fine
      & usr-Fine
      & vmon-Fine
      & vmoff-Fine
      & pstore-Fine
      & pload-Fine
      & tt

module _ {S : Type 0} {I : S → Type 0} where
  stopped :
      (b : Bool) (tm : TrapMode) (s : S) → b ≡ true → I s → Ensures I (λ _. ⊥) (raise_if b tm s)
  stopped true tm s e i = traps i
  stopped false tm s e i = absurd (grind arith)

  -- Nothing follows an action that never returns.
  stops :
      {A B : Type 0} {m : Action S A} {Q : B → Type 0} (f : A → Action S B)
      → Keeps I (λ _. ⊥) m
      → Keeps I Q (m >>= f)
  stops f h = bind h λ _ e. absurd e

-- The user's side: the guarded handlers trap, and so does `reth`, when it restores register 15.
module _ {M : Type 0} ⦃mm : MainMemory M⦄ (laws : MemoryLaws mm) (p : Protected) where
  supervisor_only-IsUser : Keeps (Holds laws (IsUser p)) (λ _. ⊥) supervisor_only
  supervisor_only-IsUser c i = stopped c.cpu.flags.user_mode illegal_operation c i.cpu.user i

  refused : (k : Handler M) → Keeps (Holds laws (IsUser p)) Any (supervisor_only >> k)
  refused k = stops (λ _. k) supervisor_only-IsUser

  ctf-IsUser : Safe laws (IsUser-IsWritable p) ctf
  unfolding ctf
  ctf-IsUser c i = returns tt (
      valid
        (record {
          ranges = with_flags c.cpu i.cpu.ranges _;
          user = i.cpu.user;
          page = i.cpu.page;
          trap_handler = i.cpu.trap_handler;
          virtual = i.cpu.virtual;
        })
        i.mem)

  usr-IsUser : Safe laws (IsUser-IsWritable p) usr
  unfolding usr
  usr-IsUser = refused _

  vmon-IsUser : Safe laws (IsUser-IsWritable p) vmon
  unfolding vmon
  vmon-IsUser = refused _

  vmoff-IsUser : Safe laws (IsUser-IsWritable p) vmoff
  unfolding vmoff
  vmoff-IsUser = refused _

  pstore-IsUser : Safe laws (IsUser-IsWritable p) pstore
  unfolding pstore
  pstore-IsUser = refused _

  pload-IsUser : Safe laws (IsUser-IsWritable p) pload
  unfolding pload
  pload-IsUser = refused _

  write_wr_15-IsUser : (w : ℕ) → Keeps (IsUser p) (λ _. ⊥) (write_wr 15 w)
  unfolding write_wr
  write_wr_15-IsUser w c u =
      Ensures-if c.flags.user_mode (λ _. traps u) λ e. absurd (grind (arith, u.user))

  put_wr_15-IsUser : (w : ℕ) → Keeps (Holds laws (IsUser p)) (λ _. ⊥) (put_wr 15 w)
  put_wr_15-IsUser w = Keeps-on_cpu laws (write_wr 15 w) (write_wr_15-IsUser w)

  pop_15-IsUser : (rs : List ℕ) → Keeps (Holds laws (IsUser p)) (λ _. ⊥) (pop_each (15 ∷ rs))
  unfolding pop_each
  pop_15-IsUser rs =
      bind (popw-IsWide laws (IsUser-IsWritable p).steady)
        λ w _. stops (λ _. pop_each rs) (put_wr_15-IsUser w)

  pop_registers-IsUser : Keeps (Holds laws (IsUser p)) (λ _. ⊥) pop_registers
  unfolding pop_registers
  pop_registers-IsUser =
      stops (λ _. popw >>= λ w. set_flags (λ _. flags_of_wide w))
        (pop_15-IsUser (drop 1 restored_registers))

  reth-IsUser : Safe laws (IsUser-IsWritable p) reth
  unfolding reth
  reth-IsUser = bind (the_flags-Keeps laws (IsUser-IsWritable p).steady) λ f _.
      bind_const (Keeps-raise_if (not f.trap) illegal_handler_return)
        (stops (λ _. set_flags (λ f. record f { trap = false })) pop_registers-IsUser)

  pub system_handlers-IsUser : All (λ e. Safe laws (IsUser-IsWritable p) e.1) system_handlers
  system_handlers-IsUser =
      let writable = IsUser-IsWritable p in
      n-Keeps laws writable
      & halt-Keeps laws writable
      & ctf-IsUser
      & syscall-Keeps laws writable
      & reth-IsUser
      & usr-IsUser
      & vmon-IsUser
      & vmoff-IsUser
      & pstore-IsUser
      & pload-IsUser
      & tt

-- ===== src/Safety/Machine.antt =====
-- src/machine/mod.rs with src/blf4/std_kernel.rs: a user program under the standard kernel.
use telda.Prelude.{ℕ, zero, suc, ◌≡◌, refl, Option, none, some, IsWide}
use telda.Mem.{MainMemory, MemoryLaws}
use telda.Blf4.Trap.{TrapMode}
use telda.Blf4.Action.{Outcome, done, trap}
use telda.Blf4.Context.{HandlerContext}
use telda.Blf4.Execute.{execute_instruction}
use telda.Machine.{
  Machine, KernelContext, with_context, after_kernel, to_kernel, after_instruction, loop_on,
  execute_once, run_until_abort,
}
use telda.Kernel.{EKernel}
use telda.Kernel.Handle.{handle_trap, ekernel}
use telda.Safety.Steady.{Holds, valid}
use telda.Safety.Modes.{Protected, IsUser}
use telda.Safety.Service.{IsServed, IsUser-IsServed, IsHandling-IsServed}
use telda.Safety.Isolation.{
  UserStep, runs, faults, delivers, enters, unhandled, unsaved, execute_instruction-UserStep,
}
use telda.Safety.Kernel.{Handled, resumes, gives_up, handle_trap-Handled}

abbrev pub context_of : {M K : Type 0} → Machine M K → HandlerContext M
context_of m = record { cpu = m.cpu; mem = m.memory }

module _ {M : Type 0} {mm : MainMemory M} (laws : MemoryLaws mm) (p : Protected) where
  -- A user program runs, under an installed standard kernel.
  pub record IsUserMachine (m : Machine M EKernel) : Type 0 where
    pub context : Holds laws (IsUser p) (context_of m)
    pub kernel : (k : EKernel) × (m.ekernel ≡ some k) × IsWide k.error_handler

  -- How one round ends: as it started, or with a trap, the protected parts unchanged in both cases.
  pub data Round : Outcome (Machine M EKernel) (Unit {0}) → Type 0 where
    continues : {m : Machine M EKernel} → IsUserMachine m → Round (done tt m)
    aborts :
        {m : Machine M EKernel} {tm : TrapMode}
        → Holds laws (IsServed p) (context_of m)
        → Round (trap tm m)

  -- How a run ends: not within the rounds allowed, or with a trap.
  pub data Run : Option (Outcome (Machine M EKernel) (Unit {0})) → Type 0 where
    goes_on : Run none
    ends :
        {m : Machine M EKernel} {tm : TrapMode}
        → Holds laws (IsServed p) (context_of m)
        → Run (some (trap tm m))

module _ {M : Type 0} ⦃mm : MainMemory M⦄ (laws : MemoryLaws mm) (p : Protected) where
  after_kernel-Round :
      (m : Machine M EKernel) (o : Outcome (KernelContext M EKernel) (Unit {0}))
      → Handled laws p o
      → Round laws p (after_kernel m o)
  after_kernel-Round m o (resumes s) =
      continues (record {
        context = valid s.context.cpu s.context.mem;
        kernel = (_, refl, s.error_handler);
      })
  after_kernel-Round m o (gives_up s) = aborts (valid s.context.cpu s.context.mem)

  to_kernel-Round :
      (tm : TrapMode) (c : HandlerContext M) (m : Machine M EKernel) (k : Option EKernel)
      → Holds laws (IsServed p) c
      → (k' : EKernel) × (k ≡ some k') × IsWide k'.error_handler
      → Round laws p (to_kernel tm (with_context m c) k)
  to_kernel-Round tm c m k i (k', e, w) = rw e (
      after_kernel-Round (with_context m c) (handle_trap tm (record { kernel = k'; context = c }))
        (handle_trap-Handled laws p tm _ (record { context = i; error_handler = w })))

  after_instruction-Round :
      (m : Machine M EKernel) (o : Outcome (HandlerContext M) (Unit {0}))
      → p.trap_handler ≡ 0
      → (k : EKernel) × (m.ekernel ≡ some k) × IsWide k.error_handler
      → UserStep laws p o
      → Round laws p (after_instruction m o)
  after_instruction-Round m o z k (runs i) =
      continues (record { context = valid i.cpu i.mem; kernel = k })
  after_instruction-Round m o z k (faults {c} {tm} i) =
      to_kernel-Round tm c m m.ekernel (valid (IsUser-IsServed p c.cpu i.cpu) i.mem) k
  after_instruction-Round m o z k (delivers tm (enters n i _ _ _)) = absurd (n z)
  after_instruction-Round m o z k (delivers tm (unhandled {c} _ i)) =
      to_kernel-Round tm c m m.ekernel (valid (IsHandling-IsServed p c.cpu i.cpu) i.mem) k
  after_instruction-Round m o z k (delivers tm (unsaved n i)) = absurd (n z)

  -- One round of a user program without a trap handler under the standard kernel, with registers
  -- in range and a memory whose accesses below 2 ^ 24 do not panic, does not panic, leaves the
  -- register of the page table, that of the trap handler and virtual mode as they were, of which
  -- the first is only the address of the table, and if it ends without a trap then again in user
  -- mode.
  pub execute_once-Round :
      (m : Machine M EKernel)
      → p.trap_handler ≡ 0
      → IsUserMachine laws p m
      → Round laws p (execute_once m)
  unfolding execute_once
  execute_once-Round m z u =
      after_instruction-Round m (execute_instruction (context_of m)) z u.kernel
        (execute_instruction-UserStep laws p (context_of m) u.context)

  loop_on-Run :
      (o : Outcome (Machine M EKernel) (Unit {0}))
      (rest : Machine M EKernel → Option (Outcome (Machine M EKernel) (Unit {0})))
      → Round laws p o
      → ((m : Machine M EKernel) → IsUserMachine laws p m → Run laws p (rest m))
      → Run laws p (loop_on o rest)
  loop_on-Run o rest (continues u) k = k _ u
  loop_on-Run o rest (aborts i) k = ends i

  -- However many rounds a user program without a trap handler runs under the installed standard
  -- kernel, with registers in range and a memory whose accesses below 2 ^ 24 do not panic (its
  -- ports included), the run does not panic, and what it ends with has the address in the
  -- register of the page table, the trap handler and the virtual mode that it started with. The
  -- page table in memory, to which translation writes flags, is not part of the statement.
  pub run_until_abort-Run :
      (fuel : ℕ) (m : Machine M EKernel)
      → p.trap_handler ≡ 0
      → IsUserMachine laws p m
      → Run laws p (run_until_abort fuel m)
  unfolding run_until_abort
  run_until_abort-Run zero m z u = goes_on
  run_until_abort-Run (suc fuel) m z u =
      loop_on-Run (execute_once m) (run_until_abort fuel) (execute_once-Round m z u)
        λ m' u'. run_until_abort-Run fuel m' z u'

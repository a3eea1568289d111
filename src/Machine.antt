-- ===== src/Machine.antt =====
-- src/machine/mod.rs and ekernel.rs: a machine, the kernel that it may emulate, and the loop that
-- runs it. `Blf4` is the only implementation of `Cpu`, so the machine is modelled for it.
pub mod Runs
use telda.Prelude.{ℕ, zero, suc, Bool, true, false, Option, none, some}
use telda.Mem.{MainMemory}
use telda.Blf4.Trap.{TrapMode}
use telda.Blf4.Action.{Action, Outcome, done, trap, panic}
use telda.Blf4.Registers.{Blf4}
use telda.Blf4.Context.{HandlerContext}
use telda.Blf4.Execute.{execute_instruction}

-- What a kernel works on when it handles a trap: itself, the processor and the memory.
pub record KernelContext (M K : Type 0) : Type 0 where
  pub kernel : K
  pub context : HandlerContext M

pub record EmulatedKernel (M K : Type 0) : Type 0 where
  pub handle_trap : TrapMode → Action (KernelContext M K) (Unit {0})

pub record Machine (M K : Type 0) : Type 0 where
  pub memory : M
  pub cpu : Blf4
  pub ekernel : Option K

abbrev pub new : {M K : Type 0} → M → Blf4 → Machine M K
new memory cpu = record { memory = memory; cpu = cpu; ekernel = none }

abbrev pub is_some : {A : Type 0} → Option A → Bool
is_some none = false
is_some (some a) = true

-- The Boolean tells whether a kernel was there already.
unfoldable pub install_emulated_kernel : {M K : Type 0} → K → Machine M K → Bool × Machine M K
install_emulated_kernel ek m = (is_some m.ekernel, record m { ekernel = some ek })

module _ {M K : Type 0} where
  abbrev pub with_context : Machine M K → HandlerContext M → Machine M K
  with_context m c = record m { cpu = c.cpu; memory = c.mem }

  abbrev pub after_kernel :
      Machine M K → Outcome (KernelContext M K) (Unit {0}) → Outcome (Machine M K) (Unit {0})
  after_kernel m (done u c) =
      done u (record { memory = c.context.mem; cpu = c.context.cpu; ekernel = some c.kernel })
  after_kernel m (trap tm c) =
      trap tm (record { memory = c.context.mem; cpu = c.context.cpu; ekernel = some c.kernel })
  after_kernel m panic = panic

  -- What the loop does with the result of a round: go on, or `break tm`.
  abbrev pub loop_on :
      Outcome (Machine M K) (Unit {0})
      → (Machine M K → Option (Outcome (Machine M K) (Unit {0})))
      → Option (Outcome (Machine M K) (Unit {0}))
  loop_on (done _ m) rest = rest m
  loop_on (trap tm m) rest = some (trap tm m)
  loop_on panic rest = some panic

module _ {M K : Type 0} ⦃mm : MainMemory M⦄ ⦃ek : EmulatedKernel M K⦄ where
  -- A trap goes to the kernel if there is one.
  abbrev pub to_kernel : TrapMode → Machine M K → Option K → Outcome (Machine M K) (Unit {0})
  to_kernel tm m none = trap tm m
  to_kernel tm m (some k) =
      after_kernel m (
        ek.handle_trap tm (record { kernel = k; context = record { cpu = m.cpu; mem = m.memory } }))

  abbrev pub after_instruction :
      Machine M K → Outcome (HandlerContext M) (Unit {0}) → Outcome (Machine M K) (Unit {0})
  after_instruction m (done u c) = done u (with_context m c)
  after_instruction m (trap tm c) = to_kernel tm (with_context m c) m.ekernel
  after_instruction m panic = panic

  unfoldable pub execute_once : Action (Machine M K) (Unit {0})
  execute_once m =
      after_instruction m (execute_instruction (record { cpu = m.cpu; mem = m.memory }))

  -- The loop, cut off after `fuel` rounds: `none` when no round so far ended in a trap.
  unfoldable pub run_until_abort :
      (fuel : ℕ) → Machine M K → Option (Outcome (Machine M K) (Unit {0}))
  run_until_abort zero m = none
  run_until_abort (suc fuel) m = loop_on (execute_once m) (run_until_abort fuel)

-- ===== src/Kernel/Handle.antt =====
-- src/blf4/std_kernel.rs: how the standard kernel handles a trap.
use telda.Prelude.{ℕ, true, false, not, ◌==◌, if◌then◌else◌}
use telda.Mem.{MainMemory}
use telda.Blf4.Trap.{TrapMode, trap_code, sys_call, halt}
use telda.Blf4.Action.{Action, Outcome, done, trap, panic, raise, ◌>>=◌, ◌>>◌}
use telda.Blf4.Registers.{r1, r2, r1l, r2l}
use telda.Blf4.Context.{
  HandlerContext, get_br, put_br, get_wr, put_wr, set_flags, set_program_counter, physical_read,
  physical_write,
}
use telda.Blf4.Mmap.{print_mmap}
use telda.Machine.{EmulatedKernel, KernelContext}
use telda.Kernel.{EKernel}

module _ {M : Type 0} where
  abbrev pub with_kernel :
      {A : Type 0} → EKernel → Outcome (HandlerContext M) A → Outcome (KernelContext M EKernel) A
  with_kernel k (done a c) = done a (record { kernel = k; context = c })
  with_kernel k (trap tm c) = trap tm (record { kernel = k; context = c })
  with_kernel k panic = panic

  abbrev pub on_context :
      {A : Type 0} → Action (HandlerContext M) A → Action (KernelContext M EKernel) A
  on_context op c = with_kernel c.kernel (op c.context)

  abbrev pub set_error_handler : ℕ → Action (KernelContext M EKernel) (Unit {0})
  set_error_handler w c = done tt (record c { kernel = record c.kernel { error_handler = w } })

module _ {M : Type 0} ⦃mm : MainMemory M⦄ where
  unfoldable pub handle_syscall : Action (KernelContext M EKernel) (Unit {0})
  handle_syscall = do
    sys_n ← on_context (get_wr r1)
    if sys_n == 0
        then on_context print_mmap
        else if sys_n == 3
        then on_context (do b ← physical_read 1; put_br r1l b)
        else if sys_n == 4
        then on_context (do b ← get_br r2l; physical_write 1 b)
        else if sys_n == 15
        then (do w ← on_context (get_wr r2); set_error_handler w)
        else raise sys_call

  unfoldable pub handle_error : TrapMode → Action (KernelContext M EKernel) (Unit {0})
  handle_error e c =
      if not (c.kernel.error_handler == 0)
      then on_context (do put_wr r1 (trap_code e); set_program_counter c.kernel.error_handler) c
      else trap e c

  abbrev pub dispatch : TrapMode → Action (KernelContext M EKernel) (Unit {0})
  dispatch sys_call = handle_syscall
  dispatch halt = raise halt
  dispatch e = handle_error e

  unfoldable pub handle_trap : TrapMode → Action (KernelContext M EKernel) (Unit {0})
  handle_trap tm = do
    dispatch tm
    on_context (set_flags (λ f. record f { trap = false; user_mode = true }))

instance abbrev pub ekernel : {M : Type 0} ⦃mm : MainMemory M⦄ → EmulatedKernel M EKernel
ekernel = record { handle_trap = handle_trap }

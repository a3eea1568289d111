-- ===== src/Safety/Kernel.antt =====
-- src/blf4/std_kernel.rs: the handling of a trap, and what it means for the protected parts of the
-- processor.
use telda.Prelude.{
  ℕ, zero, suc, ◌-◌, ◌^◌, ◌≤◌, arith, not, ◌==◌, bit_and, shr, shl32, IsByte, IsWide,
}
use telda.Mem.{MainMemory, MemoryLaws}
use telda.Blf4.Trap.{TrapMode, trap_code, sys_call, halt}
use telda.Blf4.Action.{
  Action, Outcome, done, trap, Ensures, returns, traps, Keeps, Any, bind, bind_const, Keeps-pure,
  Keeps-raise, Keeps-if, Ensures-if, gets, raise, after,
}
use telda.Blf4.Registers.{Blf4, write_wr, write_br, r1, r2, r1l, r2l}
use telda.Blf4.Context.{HandlerContext, get_wr, put_br, put_wr}
use telda.Blf4.Mmap.{print_level2, print_level1, print_mmap}
use telda.Machine.{KernelContext}
use telda.Kernel.{EKernel}
use telda.Kernel.Handle.{
  with_kernel, on_context, set_error_handler, handle_syscall, handle_error, dispatch, handle_trap,
}
use telda.Safety.Steady.{IsSteady, Holds, valid, set_gp-IsByte}
use telda.Safety.Modes.{Protected, IsUser}
use telda.Safety.Service.{IsServed, IsServed-IsSteady, IsServed-with_bytes, IsServed-IsUser}
use telda.Safety.Memory.{
  read_u32-IsU32, entry_addr-fits, physical_read-IsByte, physical_write-Keeps,
}
use telda.Safety.Access.{get_br-IsByte, get_wr-IsWide, the_flags-Keeps, set_program_counter-Keeps}
use telda.Safety.Step.{trap_code-IsByte}

-- A context of the kernel whose processor satisfies `J`.
pub record Serves {M : Type 0} {mm : MainMemory M} (laws : MemoryLaws mm) (J : Blf4 → Type 0)
    (c : KernelContext M EKernel) : Type 0 where
  pub context : Holds laws J c.context
  pub error_handler : IsWide c.kernel.error_handler

module _ {M : Type 0} ⦃mm : MainMemory M⦄ (laws : MemoryLaws mm) {J : Blf4 → Type 0}
    (steady : IsSteady J) where
  print_level2-Keeps :
      (n table2_start : ℕ)
      → n ≤ 32
      → table2_start ≤ 2 ^ 24 - 128
      → Keeps (Holds laws J) Any (print_level2 n table2_start)
  unfolding print_level2
  print_level2-Keeps zero t h k = Keeps-pure tt
  print_level2-Keeps (suc n) t h k =
      bind (read_u32-IsU32 laws _ (entry_addr-fits t (31 - n) k (omega arith)))
        λ _ _. print_level2-Keeps n t (omega arith) k

  the_page-IsWide : Keeps (Holds laws J) IsWide (gets λ c. c.cpu.page)
  the_page-IsWide c i = returns (steady.cpu c.cpu i.cpu).page i

  print_level1-Keeps : (n : ℕ) → n ≤ 16 → Keeps (Holds laws J) Any (print_level1 n)
  unfolding print_level1
  print_level1-Keeps zero h = Keeps-pure tt
  print_level1-Keeps (suc n) h = bind the_page-IsWide λ page hp.
      bind (read_u32-IsU32 laws _ (entry_addr-fits page (15 - n) (omega arith) (omega arith)))
        λ e he.
          bind_const
            (Keeps-if (bit_and e 1 == 0) (Keeps-pure tt)
              (print_level2-Keeps 32 (shl32 (shr e 15) 7) (omega arith) (omega arith)))
            (print_level1-Keeps n (omega arith))

  print_mmap-Keeps : Keeps (Holds laws J) Any print_mmap
  unfolding print_mmap
  print_mmap-Keeps =
      bind (the_flags-Keeps laws steady)
        λ f _. Keeps-if (not f.virtual_mode) (Keeps-pure tt) (print_level1-Keeps 16 (omega arith))

module _ {M : Type 0} ⦃mm : MainMemory M⦄ (laws : MemoryLaws mm) {J : Blf4 → Type 0} where
  Ensures-with_kernel :
      {A : Type 0} {R : A → Type 0} (k : EKernel) (o : Outcome (HandlerContext M) A)
      → IsWide k.error_handler
      → Ensures (Holds laws J) R o
      → Ensures (Serves laws J) R (with_kernel k o)
  Ensures-with_kernel k _ w (returns r j) = returns r (record { context = j; error_handler = w })
  Ensures-with_kernel k _ w (traps j) = traps (record { context = j; error_handler = w })

  Keeps-on_context :
      {A : Type 0} {R : A → Type 0} (op : Action (HandlerContext M) A)
      → Keeps (Holds laws J) R op
      → Keeps (Serves laws J) R (on_context op)
  Keeps-on_context op h c i =
      Ensures-with_kernel c.kernel (op c.context) i.error_handler (h c.context i.context)

  raise-Keeps : (tm : TrapMode) → Keeps (Serves laws J) Any (raise {A = Unit {0}} tm)
  raise-Keeps tm = Keeps-raise

  set_error_handler-Keeps : (w : ℕ) → IsWide w → Keeps (Serves laws J) Any (set_error_handler w)
  set_error_handler-Keeps w h c i = returns tt (record { context = i.context; error_handler = h })

module _ {M : Type 0} ⦃mm : MainMemory M⦄ (laws : MemoryLaws mm) (p : Protected) where
  -- Register 1 and its low byte are general.
  put_r1-Keeps : (w : ℕ) → IsWide w → Keeps (Holds laws (IsServed p)) Any (put_wr r1 w)
  unfolding write_wr
  put_r1-Keeps w h c i = returns tt (
      valid
        (IsServed-with_bytes p c.cpu _ i.cpu (
          set_gp-IsByte _ 1 _ (set_gp-IsByte _ 0 _ i.cpu.ranges.bytes (omega arith)) (omega arith)))
        i.mem)

  put_r1l-Keeps : (b : ℕ) → IsByte b → Keeps (Holds laws (IsServed p)) Any (put_br r1l b)
  unfolding write_br
  put_r1l-Keeps b h c i =
      returns tt (
        valid (IsServed-with_bytes p c.cpu _ i.cpu (set_gp-IsByte _ 0 b i.cpu.ranges.bytes h))
          i.mem)

  handle_syscall-Keeps : Keeps (Serves laws (IsServed p)) Any handle_syscall
  unfolding handle_syscall
  handle_syscall-Keeps =
      let steady = IsServed-IsSteady p in
      bind (Keeps-on_context laws (get_wr r1) (get_wr-IsWide laws steady r1 (omega arith)))
        λ sys_n _.
          Keeps-if (sys_n == 0) (Keeps-on_context laws print_mmap (print_mmap-Keeps laws steady)) (
            Keeps-if (sys_n == 3)
              (Keeps-on_context laws _
                (bind (physical_read-IsByte laws 1 (omega arith)) λ b h. put_r1l-Keeps b h))
              (Keeps-if (sys_n == 4)
                (Keeps-on_context laws _ (
                  bind (get_br-IsByte laws steady r2l (omega arith))
                    λ b h. physical_write-Keeps laws 1 b (omega arith) h))
                (Keeps-if (sys_n == 15)
                  (bind
                    (Keeps-on_context laws (get_wr r2) (get_wr-IsWide laws steady r2 (omega arith)))
                    λ w h. set_error_handler-Keeps laws w h)
                  (raise-Keeps laws sys_call))))

  handle_error-Keeps : (e : TrapMode) → Keeps (Serves laws (IsServed p)) Any (handle_error e)
  unfolding handle_error
  handle_error-Keeps e c i =
      Ensures-if (not (c.kernel.error_handler == 0))
        (λ _.
          Keeps-on_context laws _
            (bind_const (put_r1-Keeps (trap_code e) (omega (arith, trap_code-IsByte e))) (
              set_program_counter-Keeps laws (IsServed-IsSteady p) c.kernel.error_handler
                i.error_handler))
            c i)
        (λ _. traps i)

  dispatch-Keeps : (tm : TrapMode) → Keeps (Serves laws (IsServed p)) Any (dispatch tm)
  dispatch-Keeps sys_call = handle_syscall-Keeps
  dispatch-Keeps halt = raise-Keeps laws halt
  dispatch-Keeps e = handle_error-Keeps _

  -- How the kernel's handling of a trap ends: with the processor in user mode, or with a trap.
  pub data Handled : Outcome (KernelContext M EKernel) (Unit {0}) → Type 0 where
    resumes : {c : KernelContext M EKernel} → Serves laws (IsUser p) c → Handled (done tt c)
    gives_up :
        {tm : TrapMode} {c : KernelContext M EKernel}
        → Serves laws (IsServed p) c
        → Handled (trap tm c)

  -- If the registers and the error handler are in range and the memory's accesses below 2 ^ 24 do
  -- not panic, handling a trap of any mode does not panic and leaves the register of the page
  -- table, that of the trap handler and virtual mode as they were, of which the first is only the
  -- address of the table; it ends in user mode or gives a trap back.
  pub handle_trap-Handled :
      (tm : TrapMode) (c : KernelContext M EKernel)
      → Serves laws (IsServed p) c
      → Handled (handle_trap tm c)
  unfolding handle_trap
  handle_trap-Handled tm c i =
      after Handled (dispatch tm c) _ (dispatch-Keeps tm c i)
        (λ _ d _ j. resumes (record {
          context = valid (IsServed-IsUser p d.context.cpu j.context.cpu) j.context.mem;
          error_handler = j.error_handler;
        }))
        (λ _ d j. gives_up j)

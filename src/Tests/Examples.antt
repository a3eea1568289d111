-- ===== src/Tests/Examples.antt =====
-- The theorems applied at concrete inputs.
use telda.Prelude.{
  ℕ, ◌+◌, ◌%◌, ◌^◌, ◌≤◌, ◌<◌, ◌≡◌, refl, arith, false, not, some, leb, ltb, ◌==◌, IsByte,
}
use telda.Prelude.Int.{ltb_ℤ, leb_ℤ, to_signed}
use telda.Align.{align_start, align_end}
use telda.Align.Bounds.{align_start-IsFloor, align_end-IsCeiling}
use telda.U4.{pair, paired, paired-pair, pair-paired}
use telda.Mem.Lazy.{LazyMain, lazy_main, lazy_read, lazy_write}
use telda.Mem.Total.{IsLazyMain, lazy_read-total, lazy_write-total}
use telda.Blf4.Trap.{halt, sys_call}
use telda.Blf4.Action.{Ensures, Any, trap}
use telda.Blf4.Flags.{
  default_flags, flags_to_wide, flags_of_wide, flags_of_wide-flags_to_wide,
  flags_to_wide-flags_of_wide,
}
use telda.Blf4.Registers.{IsBlf4}
use telda.Blf4.Execute.{execute_instruction}
use telda.Isa.Jumps.{
  jez_taken, jnz_taken, jlt_taken, jle_taken, jgt_taken, jge_taken, ja_taken, jae_taken, jb_taken,
  jbe_taken,
}
use telda.Isa.Jumps.Compare.{sub_flags, unsigned_jumps-sub, signed_jumps-sub, jle-sub}
use telda.Machine.{Machine, execute_once, run_until_abort}
use telda.Machine.Runs.{Chain, here, next, run_until_abort-Chain, Chain-run_until_abort}
use telda.Kernel.{EKernel}
use telda.Kernel.Handle.{ekernel, handle_trap}
use telda.Safety.Steady.{Holds, valid}
use telda.Safety.Service.{IsUser-IsServed}
use telda.Safety.Step.{execute_instruction-IsBlf4}
use telda.Safety.Isolation.{UserStep, execute_instruction-UserStep}
use telda.Safety.Kernel.{Handled, handle_trap-Handled}
use telda.Safety.Machine.{Round, Run, execute_once-Round, run_until_abort-Run}
use telda.Tests.Setup.{
  Quiet, quiet_io, quiet_laws, quiet_memory, ram, ram-IsLazyMain, ram-IsValid, cpu_at-IsBlf4,
  cpu_at-IsUser, user_flags, user_parts, kernel, context_at, machine_at,
}
use telda.Tests.Programs.{two_bytes, nop_round, halt_round, halt_run, halted}

execute_instruction-IsBlf4_example :
    Ensures
      (Holds quiet_memory IsBlf4)
      Any
      (execute_instruction (context_at two_bytes default_flags))
execute_instruction-IsBlf4_example =
    execute_instruction-IsBlf4 quiet_memory (context_at two_bytes default_flags) (
      valid (cpu_at-IsBlf4 0x8000 default_flags (omega arith))
        (ram-IsValid two_bytes (omega arith)))

execute_instruction-UserStep_example :
    UserStep quiet_memory user_parts (execute_instruction (context_at two_bytes user_flags))
execute_instruction-UserStep_example =
    execute_instruction-UserStep quiet_memory user_parts (context_at two_bytes user_flags)
      (valid (cpu_at-IsUser 0x8000 (omega arith)) (ram-IsValid two_bytes (omega arith)))

handle_trap-Handled_example :
    Handled quiet_memory user_parts
      (handle_trap sys_call (record { kernel = kernel; context = context_at two_bytes user_flags }))
handle_trap-Handled_example =
    handle_trap-Handled quiet_memory user_parts sys_call
      (record { kernel = kernel; context = context_at two_bytes user_flags })
      (record {
        context =
            valid (IsUser-IsServed user_parts _ (cpu_at-IsUser 0x8000 (omega arith)))
              (ram-IsValid two_bytes (omega arith));
        error_handler = omega arith;
      })

execute_once-Round_example :
    Round quiet_memory user_parts (execute_once (machine_at 0x8001 two_bytes))
execute_once-Round_example =
    execute_once-Round quiet_memory user_parts (machine_at 0x8001 two_bytes) refl (record {
      context = valid (cpu_at-IsUser 0x8001 (omega arith)) (ram-IsValid two_bytes (omega arith));
      kernel = (kernel, refl, omega arith);
    })

run_until_abort-Run_example :
    Run quiet_memory user_parts (run_until_abort 2 (machine_at 0x8000 two_bytes))
run_until_abort-Run_example =
    run_until_abort-Run quiet_memory user_parts 2 (machine_at 0x8000 two_bytes) refl (record {
      context = valid (cpu_at-IsUser 0x8000 (omega arith)) (ram-IsValid two_bytes (omega arith));
      kernel = (kernel, refl, omega arith);
    })

run_until_abort-Chain_example :
    run_until_abort 2 (machine_at 0x8000 two_bytes) ≡ some (trap halt halted)
run_until_abort-Chain_example =
    run_until_abort-Chain 2 (next nop_round here) halt_round (omega arith)

Chain-run_until_abort_example :
    (n : ℕ) × (m : Machine (LazyMain Quiet) EKernel) × (n < 2)
    × Chain n (machine_at 0x8000 two_bytes) m
    × (execute_once m ≡ trap halt halted)
Chain-run_until_abort_example = Chain-run_until_abort 2 (machine_at 0x8000 two_bytes) halt_run

unsigned_jumps-sub_example :
    (jez_taken (sub_flags 7 200 3 default_flags) ≡ (200 == 3))
    × (jnz_taken (sub_flags 7 200 3 default_flags) ≡ not (200 == 3))
    × (jb_taken (sub_flags 7 200 3 default_flags) ≡ ltb 200 3)
    × (jae_taken (sub_flags 7 200 3 default_flags) ≡ leb 3 200)
    × (ja_taken (sub_flags 7 200 3 default_flags) ≡ ltb 3 200)
    × (jbe_taken (sub_flags 7 200 3 default_flags) ≡ leb 200 3)
unsigned_jumps-sub_example = unsigned_jumps-sub 7 200 3 default_flags (omega arith) (omega arith)

signed_jumps-sub_example :
    (jlt_taken (sub_flags 7 200 3 default_flags) ≡ ltb_ℤ (to_signed 7 200) (to_signed 7 3))
    × (jge_taken (sub_flags 7 200 3 default_flags) ≡ leb_ℤ (to_signed 7 3) (to_signed 7 200))
    × (jgt_taken (sub_flags 7 200 3 default_flags) ≡ ltb_ℤ (to_signed 7 3) (to_signed 7 200))
signed_jumps-sub_example = signed_jumps-sub 7 200 3 default_flags (omega arith) (omega arith)

jle-sub_example : jle_taken (sub_flags 7 3 3 default_flags) ≡ false
jle-sub_example = jle-sub 7 3 3 default_flags (omega arith) (omega arith)

flags_of_wide-flags_to_wide_example : flags_of_wide (flags_to_wide user_flags) ≡ user_flags
flags_of_wide-flags_to_wide_example = flags_of_wide-flags_to_wide user_flags

flags_to_wide-flags_of_wide_example : flags_to_wide (flags_of_wide 0xa5) ≡ 0xa5
flags_to_wide-flags_of_wide_example = flags_to_wide-flags_of_wide 0xa5 (omega arith)

paired-pair_example : (paired (pair 3 12) ≡ (3, 12)) × IsByte (pair 3 12)
paired-pair_example = paired-pair 3 12 (omega arith) (omega arith)

pair-paired_example : pair (paired 0x3c).0 (paired 0x3c).1 ≡ 0x3c
pair-paired_example = pair-paired 0x3c (omega arith)

align_start-IsFloor_example :
    (align_start 1000 (2 ^ 7) % 2 ^ 7 ≡ 0)
    × (align_start 1000 (2 ^ 7) ≤ 1000)
    × (1000 < align_start 1000 (2 ^ 7) + 2 ^ 7)
align_start-IsFloor_example = align_start-IsFloor 7 1000 (omega arith) (omega arith)

align_end-IsCeiling_example :
    (align_end 1000 (2 ^ 7) % 2 ^ 7 ≡ 0)
    × (1000 ≤ align_end 1000 (2 ^ 7))
    × (align_end 1000 (2 ^ 7) < 1000 + 2 ^ 7)
align_end-IsCeiling_example = align_end-IsCeiling 7 1000 (omega arith) (omega arith) (omega arith)

lazy_read-total_example :
    (v : ℕ) × (m : LazyMain Quiet) × (lazy_read 0x8001 (ram two_bytes) ≡ some (v, m))
    × IsByte v
    × IsLazyMain quiet_laws m
lazy_read-total_example =
    lazy_read-total quiet_laws 0x8001 (ram two_bytes) (omega arith)
      (ram-IsLazyMain two_bytes (omega arith))

lazy_write-total_example :
    (m : LazyMain Quiet) × (lazy_write 0x12345 7 (ram two_bytes) ≡ some m) × IsLazyMain quiet_laws m
lazy_write-total_example =
    lazy_write-total quiet_laws 0x12345 (ram two_bytes) (omega arith)
      (ram-IsLazyMain two_bytes (omega arith)) 7 (omega arith)

-- ===== src/Tests/StateExamples.antt =====
-- The theorems on registers, memory and page-table entries applied at concrete inputs.
use telda.Prelude.{◌-◌, ◌*◌, ◌≡◌, refl, arith, true, some, low_byte, high_byte, ◌==◌, if◌then◌else◌}
use telda.Mem.Lazy.{LazyMain, lazy_main, lazy_read, lazy_write}
use telda.Mem.Ram.{byte_of, lazy_write-lazy_read}
use telda.Blf4.Action.{Ensures, done, ◌>>◌}
use telda.Blf4.Flags.{default_flags}
use telda.Blf4.Registers.{Blf4, read_br, write_wr}
use telda.Blf4.Registers.Laws.{WriteRead, write_wr-read_wr, write_wr-read_br}
use telda.Blf4.Paging.{AccessMode, check_entry}
use telda.Blf4.Access.{pushw, popw}
use telda.Blf4.Access.Stack.{pushw-popw}
use telda.Kernel.Mmap.{page_of}
use telda.Kernel.Agree.{check_entry-page_of}
use telda.Tests.Setup.{Quiet, quiet_io, ram, cpu_at, context_at}
use telda.Tests.Programs.{two_bytes}

lazy_write-lazy_read_example :
    (m : LazyMain Quiet) × (lazy_write 0x2_8001 7 (ram two_bytes) ≡ some m)
    × (lazy_read 0x8001 (ram two_bytes) ≡ some (byte_of (ram two_bytes) 0x8001, ram two_bytes))
    × (lazy_read 0x8001 m
        ≡ some (if 0x2_8001 == 0x8001 then 7 else byte_of (ram two_bytes) 0x8001, m))
lazy_write-lazy_read_example =
    lazy_write-lazy_read (ram two_bytes) 0x2_8001 0x8001 7 (omega arith) (omega arith) (omega arith)
      (omega arith)

write_wr-read_wr_example : WriteRead 11 0xfe00 (cpu_at 0x8000 default_flags)
write_wr-read_wr_example =
    write_wr-read_wr 11 0xfe00 (cpu_at 0x8000 default_flags) (omega arith) (omega arith)
      (omega arith)

write_wr-read_br_example :
    (d : Blf4) × (write_wr 2 0x1234 (cpu_at 0x8000 default_flags) ≡ done tt d)
    × (read_br (2 * 2 - 1) d ≡ done (low_byte 0x1234) d)
    × (read_br (2 * 2) d ≡ done (high_byte 0x1234) d)
write_wr-read_br_example =
    write_wr-read_br 2 0x1234 (cpu_at 0x8000 default_flags) (omega arith) (omega arith)

check_entry-page_of_example :
    Ensures
      (λ _. Unit {0})
      (λ e. e.addr ≡ page_of 0x0080_8037)
      (check_entry 0x0080_8037 true AccessMode.write two_bytes)
check_entry-page_of_example =
    check_entry-page_of 0x0080_8037 true AccessMode.write (omega arith) two_bytes

pushw-popw_example :
    (m : LazyMain Quiet) × ((pushw 0xbeef >> popw) (context_at two_bytes default_flags)
      ≡ done 0xbeef (record (context_at two_bytes default_flags) { mem = m }))
pushw-popw_example =
    pushw-popw (context_at two_bytes default_flags) 0xbeef refl (omega arith) (omega arith)
      (omega arith)

-- ===== src/Tests/Setup.antt =====
-- Ports that read as zero, memories with a few bytes of RAM, and processors in both modes.
use telda.Prelude.{
  ℕ, zero, suc, refl, arith, true, false, none, some, List, [], ◌∷◌, IsByte, IsWide, All,
}
use telda.Mem.{MemoryLaws}
use telda.Mem.Io.{Io}
use telda.Mem.Lazy.{LazyMain, lazy_main}
use telda.Mem.Total.{IoLaws, IsLazyMain, lazy_main-laws}
use telda.Blf4.Flags.{Blf4Flags, default_flags}
use telda.Blf4.Registers.{Blf4, IsBlf4}
use telda.Blf4.Context.{HandlerContext}
use telda.Machine.{Machine}
use telda.Kernel.{EKernel}
use telda.Safety.Modes.{Protected, IsUser}

abbrev pub Quiet : Type 0
Quiet = Unit

instance abbrev pub quiet_io : Io Quiet
quiet_io = record { read = λ addr p. some (0, p); write = λ addr v p. some p }

abbrev pub quiet_laws : IoLaws quiet_io
quiet_laws = record {
  IsReady = λ p. Unit;
  read-total = λ addr p h r. (0, p, refl, omega arith, tt);
  write-total = λ addr v p h b r. (p, refl, tt);
}

abbrev pub byte_at : List ℕ → ℕ → ℕ
byte_at [] i = 0
byte_at (b ∷ bs) zero = b
byte_at (b ∷ bs) (suc i) = byte_at bs i

byte_at-IsByte : (bs : List ℕ) → All IsByte bs → (i : ℕ) → IsByte (byte_at bs i)
byte_at-IsByte [] h i = omega arith
byte_at-IsByte (b ∷ bs) h zero = h.0
byte_at-IsByte (b ∷ bs) h (suc i) = byte_at-IsByte bs h.1 i

-- The bytes stand at 0x8000.
abbrev pub ram : List ℕ → LazyMain Quiet
ram bs = record { rom = none; ram0 = byte_at bs; cells = λ _. none; ports = tt }

pub ram-IsLazyMain : (bs : List ℕ) → All IsByte bs → IsLazyMain quiet_laws (ram bs)
ram-IsLazyMain bs h = record {
  rom_bytes = tt;
  ram_bytes = byte_at-IsByte bs h;
  cell_bytes = λ _. tt;
  ports_ready = tt;
}

-- The processor at an address, with flags and a stack in RAM.
abbrev pub cpu_at : ℕ → Blf4Flags → Blf4
cpu_at pc flags = record {
  general_purposes = λ _. 0;
  stack = 0xff00;
  link = 128;
  frame = 0xff00;
  page = 0;
  program_counter = pc;
  trap_handler = 0;
  flags = flags;
}

pub cpu_at-IsBlf4 : (pc : ℕ) (flags : Blf4Flags) → IsWide pc → IsBlf4 (cpu_at pc flags)
cpu_at-IsBlf4 pc flags h = record {
  bytes = λ _. omega arith;
  stack = omega arith;
  link = omega arith;
  frame = omega arith;
  page = omega arith;
  program_counter = h;
  trap_handler = omega arith;
}

abbrev pub user_flags : Blf4Flags
user_flags = record default_flags { user_mode = true }

abbrev pub user_parts : Protected
user_parts = record { page = 0; trap_handler = 0; virtual_mode = false }

pub cpu_at-IsUser : (pc : ℕ) → IsWide pc → IsUser user_parts (cpu_at pc user_flags)
cpu_at-IsUser pc h = record {
  ranges = cpu_at-IsBlf4 pc user_flags h;
  user = refl;
  page = refl;
  trap_handler = refl;
  virtual = refl;
}

abbrev pub context_at : List ℕ → Blf4Flags → HandlerContext (LazyMain Quiet)
context_at bs flags = record { cpu = cpu_at 0x8000 flags; mem = ram bs }

-- The laws of these memories.
abbrev pub quiet_memory : MemoryLaws (lazy_main {P = Quiet})
quiet_memory = lazy_main-laws quiet_laws

pub ram-IsValid : (bs : List ℕ) → All IsByte bs → quiet_memory.IsValid (ram bs)
unfolding lazy_main-laws
ram-IsValid bs h = ram-IsLazyMain bs h

abbrev pub kernel : EKernel
kernel = record { error_handler = 0; page_bumper = 0x9000; next_free = none }

abbrev pub machine_at : ℕ → List ℕ → Machine (LazyMain Quiet) EKernel
machine_at pc bs = record { memory = ram bs; cpu = cpu_at pc user_flags; ekernel = some kernel }

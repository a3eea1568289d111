-- ===== src/Blf4/Registers.antt =====
-- src/blf4/mod.rs and register_type.rs: the processor's state and its registers.
pub mod Laws
use telda.Prelude.{
  ℕ, ◌+◌, ◌-◌, ◌*◌, ◌&&◌, ◌||◌, ◌==◌, leb, if◌then◌else◌, IsByte, IsWide, low_byte, high_byte,
  wide_of,
}
use telda.Align.{page_size}
use telda.U4.{U4}
use telda.Blf4.Trap.{illegal_operation}
use telda.Blf4.Action.{Action, done, trap, panic}
use telda.Blf4.Flags.{Blf4Flags, default_flags}

abbrev pub ByteRegister : Type 0
ByteRegister = U4

abbrev pub WideRegister : Type 0
WideRegister = U4

-- The registers that other parts of the source name.
abbrev pub r0 : WideRegister
r0 = 0

abbrev pub r1 : WideRegister
r1 = 1

abbrev pub r2 : WideRegister
r2 = 2

abbrev pub r1l : ByteRegister
r1l = 1

abbrev pub r2l : ByteRegister
r2l = 3

-- `general_purposes` is the array of twenty bytes, as a function of the index.
pub record Blf4 : Type 0 where
  pub general_purposes : ℕ → ℕ
  pub stack : ℕ
  pub link : ℕ
  pub frame : ℕ
  pub page : ℕ
  pub program_counter : ℕ
  pub trap_handler : ℕ
  pub flags : Blf4Flags

-- `Blf4::new`, with what the random generator gives as arguments.
unfoldable pub new : (general_purposes : ℕ → ℕ) (page frame stack : ℕ) → Blf4
new general_purposes page frame stack = record {
  program_counter = page_size;
  link = page_size;
  trap_handler = 0;
  flags = default_flags;
  general_purposes = general_purposes;
  page = page;
  frame = frame;
  stack = stack;
}

abbrev pub set_gp : ℕ → ℕ → (ℕ → ℕ) → ℕ → ℕ
set_gp i v f j = if i == j then v else f j

-- `panic` is `unimplemented!`, at a number that is no register.
unfoldable pub read_br : ByteRegister → Action Blf4 ℕ
read_br n c =
    if n == 0
    then done 0 c
    else if leb n 10
    then done (c.general_purposes (n - 1)) c
    else if leb n 15
    then done (c.general_purposes (10 + (n - 11) * 2)) c
    else panic

unfoldable pub write_br : ByteRegister → ℕ → Action Blf4 (Unit {0})
write_br n val c =
    if n == 0
    then done tt c
    else if leb n 10
    then done tt (record c { general_purposes = set_gp (n - 1) val c.general_purposes })
    else if leb n 15
    then (let index = 10 + (n - 11) * 2 in
        done tt (record c {
          general_purposes = set_gp (index + 1) 0 (set_gp index val c.general_purposes);
        }))
    else panic

unfoldable pub read_wr : WideRegister → Action Blf4 ℕ
read_wr n c =
    if n == 0
    then done 0 c
    else if leb n 10
    then (let index = (n - 1) * 2 in
        done (wide_of (c.general_purposes index) (c.general_purposes (index + 1))) c)
    else if n == 11
    then done c.stack c
    else if n == 12
    then done c.link c
    else if n == 13
    then done c.frame c
    else if (n == 14 || n == 15) && c.flags.user_mode
    then trap illegal_operation c
    else if n == 14
    then done c.page c
    else if n == 15
    then done c.trap_handler c
    else panic

unfoldable pub write_wr : WideRegister → ℕ → Action Blf4 (Unit {0})
write_wr n val c =
    if n == 0
    then done tt c
    else if leb n 10
    then (let index = (n - 1) * 2 in
        done tt (record c {
          general_purposes =
              set_gp (index + 1) (high_byte val) (set_gp index (low_byte val) c.general_purposes);
        }))
    else if n == 11
    then done tt (record c { stack = val })
    else if n == 12
    then done tt (record c { link = val })
    else if n == 13
    then done tt (record c { frame = val })
    else if (n == 14 || n == 15) && c.flags.user_mode
    then trap illegal_operation c
    else if n == 14
    then done tt (record c { page = val })
    else if n == 15
    then done tt (record c { trap_handler = val })
    else panic

-- Every register holds what its width allows.
pub record IsBlf4 (c : Blf4) : Type 0 where
  pub bytes : (i : ℕ) → IsByte (c.general_purposes i)
  pub stack : IsWide c.stack
  pub link : IsWide c.link
  pub frame : IsWide c.frame
  pub page : IsWide c.page
  pub program_counter : IsWide c.program_counter
  pub trap_handler : IsWide c.trap_handler

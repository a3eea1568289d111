-- ===== src/Safety/Modes.antt =====
-- src/blf4/mod.rs: user mode and the parts of the processor that it protects.
use telda.Prelude.{arith, ℕ, ◌≡◌, refl, true, false, Bool, IsByte, IsWide}
use telda.Blf4.Registers.{Blf4, IsBlf4}
use telda.Safety.Steady.{IsSteady, IsWritable, write_br-Keeps, write_wr-Keeps}
use telda.Safety.Ranges.{
  with_bytes, with_stack, with_link, with_frame, with_program_counter, with_flags,
}

-- What of the processor a user program must not change: the register with the address of the page
-- table, the one of the trap handler, and virtual mode. The table itself is in memory, where address
-- translation sets flags.
pub record Protected : Type 0 where
  pub page : ℕ
  pub trap_handler : ℕ
  pub virtual_mode : Bool

abbrev pub protected_of : Blf4 → Protected
protected_of c = record {
  page = c.page;
  trap_handler = c.trap_handler;
  virtual_mode = c.flags.virtual_mode;
}

-- In user mode, and with these protected parts.
pub record IsUser (p : Protected) (c : Blf4) : Type 0 where
  pub ranges : IsBlf4 c
  pub user : c.flags.user_mode ≡ true
  pub page : c.page ≡ p.page
  pub trap_handler : c.trap_handler ≡ p.trap_handler
  pub virtual : c.flags.virtual_mode ≡ p.virtual_mode

module _ (p : Protected) where
  still :
      (c d : Blf4)
      → IsUser p c
      → IsBlf4 d
      → d.flags.user_mode ≡ c.flags.user_mode
      → d.flags.virtual_mode ≡ c.flags.virtual_mode
      → d.page ≡ c.page
      → d.trap_handler ≡ c.trap_handler
      → IsUser p d
  still c d u ok user virtual page trap_handler = record {
    ranges = ok;
    user = rw user u.user;
    page = rw page u.page;
    trap_handler = rw trap_handler u.trap_handler;
    virtual = rw virtual u.virtual;
  }

  IsUser-IsSteady : IsSteady (IsUser p)
  IsUser-IsSteady = record {
    cpu = λ c u. u.ranges;
    program_counter =
        λ c w u h. still c _ u (with_program_counter c u.ranges w h) refl refl refl refl;
    stack = λ c w u h. still c _ u (with_stack c u.ranges w h) refl refl refl refl;
    link = λ c w u h. still c _ u (with_link c u.ranges w h) refl refl refl refl;
    flags = λ c f u eu ev _. still c _ u (with_flags c u.ranges f) eu ev refl refl;
  }

  -- So is user mode with its protected parts.
  pub IsUser-IsWritable : IsWritable (IsUser p)
  IsUser-IsWritable =
      let gp : (c : Blf4) (f : ℕ → ℕ)
          → IsUser p c
          → ((i : ℕ) → IsByte (f i))
          → IsUser p (record c { general_purposes = f }) =
        λ c f u h. still c _ u (with_bytes c u.ranges f h) refl refl refl refl in
      let stack : (c : Blf4) (w : ℕ) → IsUser p c → IsWide w → IsUser p (record c { stack = w }) =
        λ c w u h. still c _ u (with_stack c u.ranges w h) refl refl refl refl in
      let link : (c : Blf4) (w : ℕ) → IsUser p c → IsWide w → IsUser p (record c { link = w }) =
        λ c w u h. still c _ u (with_link c u.ranges w h) refl refl refl refl in
      let frame : (c : Blf4) (w : ℕ) → IsUser p c → IsWide w → IsUser p (record c { frame = w }) =
        λ c w u h. still c _ u (with_frame c u.ranges w h) refl refl refl refl in
      let page : (c : Blf4) (w : ℕ)
          → IsUser p c
          → IsWide w
          → c.flags.user_mode ≡ false
          → IsUser p (record c { page = w }) =
        λ c w u h e. absurd (grind (arith, u.user)) in
      let trap_handler : (c : Blf4) (w : ℕ)
          → IsUser p c
          → IsWide w
          → c.flags.user_mode ≡ false
          → IsUser p (record c { trap_handler = w }) =
        λ c w u h e. absurd (grind (arith, u.user)) in
      record {
        steady = IsUser-IsSteady;
        write_br = write_br-Keeps (λ c u. u.ranges) gp stack link frame page trap_handler;
        write_wr = write_wr-Keeps (λ c u. u.ranges) gp stack link frame page trap_handler;
      }

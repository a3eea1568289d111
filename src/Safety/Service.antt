-- ===== src/Safety/Service.antt =====
-- src/blf4/mod.rs: the supervisor's parts while a trap of a user program is delivered and handled.
use telda.Prelude.{ℕ, ◌≡◌, refl, true, false, IsByte}
use telda.Blf4.Registers.{Blf4, IsBlf4}
use telda.Safety.Steady.{IsSteady}
use telda.Safety.Ranges.{with_bytes, with_stack, with_link, with_program_counter, with_flags}
use telda.Safety.Modes.{Protected, IsUser}

-- While a trap of the user program is delivered.
pub record IsHandling (p : Protected) (c : Blf4) : Type 0 where
  pub ranges : IsBlf4 c
  pub user : c.flags.user_mode ≡ false
  pub trap : c.flags.trap ≡ true
  pub page : c.page ≡ p.page
  pub trap_handler : c.trap_handler ≡ p.trap_handler
  pub virtual : c.flags.virtual_mode ≡ p.virtual_mode

module _ (p : Protected) where
  pub IsHandling-IsSteady : IsSteady (IsHandling p)
  IsHandling-IsSteady = record {
    cpu = λ c u. u.ranges;
    program_counter = λ c w u h. record {
      ranges = with_program_counter c u.ranges w h;
      user = u.user;
      trap = u.trap;
      page = u.page;
      trap_handler = u.trap_handler;
      virtual = u.virtual;
    };
    stack = λ c w u h. record {
      ranges = with_stack c u.ranges w h;
      user = u.user;
      trap = u.trap;
      page = u.page;
      trap_handler = u.trap_handler;
      virtual = u.virtual;
    };
    link = λ c w u h. record {
      ranges = with_link c u.ranges w h;
      user = u.user;
      trap = u.trap;
      page = u.page;
      trap_handler = u.trap_handler;
      virtual = u.virtual;
    };
    flags = λ c f u eu ev et. record {
      ranges = with_flags c u.ranges f;
      user = rw eu u.user;
      trap = rw et u.trap;
      page = u.page;
      trap_handler = u.trap_handler;
      virtual = rw ev u.virtual;
    };
  }

  -- Setting the flags of a trap starts its delivery.
  pub IsUser-IsHandling :
      (c : Blf4)
      → IsUser p c
      → IsHandling p (record c { flags = record c.flags { trap = true; user_mode = false } })
  IsUser-IsHandling c u = record {
    ranges = with_flags c u.ranges _;
    user = refl;
    trap = refl;
    page = u.page;
    trap_handler = u.trap_handler;
    virtual = u.virtual;
  }

  -- The first register may be written meanwhile.
  pub IsHandling-with_bytes :
      (c : Blf4) (f : ℕ → ℕ)
      → IsHandling p c
      → ((i : ℕ) → IsByte (f i))
      → IsHandling p (record c { general_purposes = f })
  IsHandling-with_bytes c f u h = record {
    ranges = with_bytes c u.ranges f h;
    user = u.user;
    trap = u.trap;
    page = u.page;
    trap_handler = u.trap_handler;
    virtual = u.virtual;
  }

-- While the kernel works for the user program, in either mode.
pub record IsServed (p : Protected) (c : Blf4) : Type 0 where
  pub ranges : IsBlf4 c
  pub page : c.page ≡ p.page
  pub trap_handler : c.trap_handler ≡ p.trap_handler
  pub virtual : c.flags.virtual_mode ≡ p.virtual_mode

module _ (p : Protected) where
  pub IsServed-IsSteady : IsSteady (IsServed p)
  IsServed-IsSteady = record {
    cpu = λ c u. u.ranges;
    program_counter = λ c w u h. record {
      ranges = with_program_counter c u.ranges w h;
      page = u.page;
      trap_handler = u.trap_handler;
      virtual = u.virtual;
    };
    stack = λ c w u h. record {
      ranges = with_stack c u.ranges w h;
      page = u.page;
      trap_handler = u.trap_handler;
      virtual = u.virtual;
    };
    link = λ c w u h. record {
      ranges = with_link c u.ranges w h;
      page = u.page;
      trap_handler = u.trap_handler;
      virtual = u.virtual;
    };
    flags = λ c f u eu ev et. record {
      ranges = with_flags c u.ranges f;
      page = u.page;
      trap_handler = u.trap_handler;
      virtual = rw ev u.virtual;
    };
  }

  pub IsServed-with_bytes :
      (c : Blf4) (f : ℕ → ℕ)
      → IsServed p c
      → ((i : ℕ) → IsByte (f i))
      → IsServed p (record c { general_purposes = f })
  IsServed-with_bytes c f u h = record {
    ranges = with_bytes c u.ranges f h;
    page = u.page;
    trap_handler = u.trap_handler;
    virtual = u.virtual;
  }

  -- The kernel hands the processor back in user mode.
  pub IsServed-IsUser :
      (c : Blf4)
      → IsServed p c
      → IsUser p (record c { flags = record c.flags { trap = false; user_mode = true } })
  IsServed-IsUser c u = record {
    ranges = with_flags c u.ranges _;
    user = refl;
    page = u.page;
    trap_handler = u.trap_handler;
    virtual = u.virtual;
  }

  pub IsUser-IsServed : (c : Blf4) → IsUser p c → IsServed p c
  IsUser-IsServed c u = record {
    ranges = u.ranges;
    page = u.page;
    trap_handler = u.trap_handler;
    virtual = u.virtual;
  }

  pub IsHandling-IsServed : (c : Blf4) → IsHandling p c → IsServed p c
  IsHandling-IsServed c u = record {
    ranges = u.ranges;
    page = u.page;
    trap_handler = u.trap_handler;
    virtual = u.virtual;
  }

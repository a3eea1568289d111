-- ===== src/Safety/Ranges.antt =====
-- src/blf4/mod.rs: the ranges of the registers through the updates of the processor.
use telda.Prelude.{ℕ, IsByte, IsWide}
use telda.Blf4.Flags.{Blf4Flags}
use telda.Blf4.Registers.{Blf4, IsBlf4}
use telda.Safety.Steady.{IsSteady, IsWritable, write_br-Keeps, write_wr-Keeps}

module _ (c : Blf4) (ok : IsBlf4 c) where
  pub with_bytes :
      (f : ℕ → ℕ) → ((i : ℕ) → IsByte (f i)) → IsBlf4 (record c { general_purposes = f })
  with_bytes f h = record {
    bytes = h;
    stack = ok.stack;
    link = ok.link;
    frame = ok.frame;
    page = ok.page;
    program_counter = ok.program_counter;
    trap_handler = ok.trap_handler;
  }

  pub with_stack : (w : ℕ) → IsWide w → IsBlf4 (record c { stack = w })
  with_stack w h = record {
    bytes = ok.bytes;
    stack = h;
    link = ok.link;
    frame = ok.frame;
    page = ok.page;
    program_counter = ok.program_counter;
    trap_handler = ok.trap_handler;
  }

  pub with_link : (w : ℕ) → IsWide w → IsBlf4 (record c { link = w })
  with_link w h = record {
    bytes = ok.bytes;
    stack = ok.stack;
    link = h;
    frame = ok.frame;
    page = ok.page;
    program_counter = ok.program_counter;
    trap_handler = ok.trap_handler;
  }

  pub with_frame : (w : ℕ) → IsWide w → IsBlf4 (record c { frame = w })
  with_frame w h = record {
    bytes = ok.bytes;
    stack = ok.stack;
    link = ok.link;
    frame = h;
    page = ok.page;
    program_counter = ok.program_counter;
    trap_handler = ok.trap_handler;
  }

  pub with_page : (w : ℕ) → IsWide w → IsBlf4 (record c { page = w })
  with_page w h = record {
    bytes = ok.bytes;
    stack = ok.stack;
    link = ok.link;
    frame = ok.frame;
    page = h;
    program_counter = ok.program_counter;
    trap_handler = ok.trap_handler;
  }

  pub with_program_counter : (w : ℕ) → IsWide w → IsBlf4 (record c { program_counter = w })
  with_program_counter w h = record {
    bytes = ok.bytes;
    stack = ok.stack;
    link = ok.link;
    frame = ok.frame;
    page = ok.page;
    program_counter = h;
    trap_handler = ok.trap_handler;
  }

  pub with_trap_handler : (w : ℕ) → IsWide w → IsBlf4 (record c { trap_handler = w })
  with_trap_handler w h = record {
    bytes = ok.bytes;
    stack = ok.stack;
    link = ok.link;
    frame = ok.frame;
    page = ok.page;
    program_counter = ok.program_counter;
    trap_handler = h;
  }

  pub with_flags : (f : Blf4Flags) → IsBlf4 (record c { flags = f })
  with_flags f = record {
    bytes = ok.bytes;
    stack = ok.stack;
    link = ok.link;
    frame = ok.frame;
    page = ok.page;
    program_counter = ok.program_counter;
    trap_handler = ok.trap_handler;
  }

IsBlf4-IsSteady : IsSteady IsBlf4
IsBlf4-IsSteady = record {
  cpu = λ c ok. ok;
  program_counter = λ c w ok h. with_program_counter c ok w h;
  stack = λ c w ok h. with_stack c ok w h;
  link = λ c w ok h. with_link c ok w h;
  flags = λ c f ok _ _ _. with_flags c ok f;
}

-- The ranges of the registers are an invariant in any mode.
pub IsBlf4-IsWritable : IsWritable IsBlf4
IsBlf4-IsWritable =
    let gp : (c : Blf4) (f : ℕ → ℕ)
        → IsBlf4 c
        → ((i : ℕ) → IsByte (f i))
        → IsBlf4 (record c { general_purposes = f }) =
      λ c f ok h. with_bytes c ok f h in
    record {
      steady = IsBlf4-IsSteady;
      write_br =
          write_br-Keeps (λ c ok. ok) gp (λ c w ok h. with_stack c ok w h)
            (λ c w ok h. with_link c ok w h) (λ c w ok h. with_frame c ok w h)
            (λ c w ok h _. with_page c ok w h) (λ c w ok h _. with_trap_handler c ok w h);
      write_wr =
          write_wr-Keeps (λ c ok. ok) gp (λ c w ok h. with_stack c ok w h)
            (λ c w ok h. with_link c ok w h) (λ c w ok h. with_frame c ok w h)
            (λ c w ok h _. with_page c ok w h) (λ c w ok h _. with_trap_handler c ok w h);
    }

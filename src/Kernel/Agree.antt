-- ===== src/Kernel/Agree.antt =====
-- src/blf4/std_kernel.rs and mod.rs: a page-table entry as the kernel and the processor read it.
use telda.Prelude.{ℕ, ◌/◌, ◌^◌, ◌<◌, ◌≡◌, arith, Bool, shr, shl32}
use telda.Align.Bounds.{bit_and_high}
use telda.Blf4.Trap.{level2_page_fault, illegal_operation}
use telda.Blf4.Action.{Ensures, bind_const, Keeps-raise_if, Keeps-pure}
use telda.Blf4.Paging.{AccessMode, check_entry, mode_fault}
use telda.Kernel.Mmap.{page_of}

same_page : (raw : ℕ) → raw < 2 ^ 32 → shl32 (shr raw 15) 7 ≡ page_of raw
same_page raw h = ground (arith, bit_and_high 7 24 (raw / 2 ^ 8) (omega arith) (omega arith))

module _ {S : Type 0} where
  -- If the processor accepts an entry of 32 bits, for any mode of access, it goes on to the page that
  -- the kernel's `map` takes the entry to name; otherwise it traps.
  pub check_entry-page_of :
      (raw : ℕ) (in_user_mode : Bool) (mode : AccessMode)
      → raw < 2 ^ 32
      → (s : S)
      → Ensures (λ _. Unit {0}) (λ e. e.addr ≡ page_of raw) (check_entry raw in_user_mode mode s)
  unfolding check_entry
  check_entry-page_of raw u mode h s =
      bind_const (Keeps-raise_if _ level2_page_fault)
        (bind_const (Keeps-raise_if _ illegal_operation)
          (bind_const (Keeps-raise_if _ (mode_fault mode)) (Keeps-pure (same_page raw h))))
        s tt

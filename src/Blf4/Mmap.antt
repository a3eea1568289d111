-- ===== src/Blf4/Mmap.antt =====
-- src/blf4/mod.rs: `print_mmap`, without the text that it prints: what remains are its reads of the
-- page tables.
use telda.Prelude.{ℕ, zero, suc, ◌-◌, not, bit_and, ◌==◌, if◌then◌else◌, shr, shl32}
use telda.Mem.{MainMemory, read_u32}
use telda.Blf4.Action.{Action, pure, gets, ◌>>=◌, ◌>>◌}
use telda.Blf4.Context.{HandlerContext, of_read, the_flags}
use telda.Blf4.Paging.{entry_addr}

module _ {M : Type 0} ⦃mm : MainMemory M⦄ where
  -- The last `n` of the 32 entries of a second table.
  unfoldable pub print_level2 : (n : ℕ) → ℕ → Action (HandlerContext M) (Unit {0})
  print_level2 zero table2_start = pure tt
  print_level2 (suc n) table2_start = do
    lvl2_entry ← (λ c. of_read c.cpu (read_u32 (entry_addr table2_start (31 - n)) c.mem))
    print_level2 n table2_start

  -- The last `n` of the 16 entries of the first table.
  unfoldable pub print_level1 : (n : ℕ) → Action (HandlerContext M) (Unit {0})
  unfolding print_level2
  print_level1 zero = pure tt
  print_level1 (suc n) = do
    table1_start ← gets (λ c. c.cpu.page)
    lvl1_entry ← (λ c. of_read c.cpu (read_u32 (entry_addr table1_start (15 - n)) c.mem))
    (if bit_and lvl1_entry 1 == 0 then pure tt else print_level2 32 (shl32 (shr lvl1_entry 15) 7))
    print_level1 n

  unfoldable pub print_mmap : Action (HandlerContext M) (Unit {0})
  unfolding print_level1
  print_mmap = do flags ← the_flags; if not flags.virtual_mode then pure tt else print_level1 16

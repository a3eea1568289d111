-- ===== src/Kernel.antt =====
-- src/blf4/std_kernel.rs: the standard kernel, and how it gives out pages.
pub mod Mmap
pub mod Load
pub mod Handle
pub mod Agree
use telda.Prelude.{
  ℕ, ◌-◌, Option, none, some, bit_and, replicate, ◌==◌, if◌then◌else◌, add32, le_bytes32,
}
use telda.Mem.{MainMemory, read_u32, write_n, ◌>>=◌}
use telda.Mem.Lazy.{half_cell}

pub record EKernel : Type 0 where
  pub error_handler : ℕ
  pub page_bumper : ℕ
  pub next_free : Option ℕ

unfoldable pub new : EKernel
new = record { error_handler = 0; page_bumper = half_cell; next_free = none }

abbrev pub old_free : Option ℕ → ℕ
old_free (some next_free) = next_free
old_free none = 1

module _ {M : Type 0} ⦃mm : MainMemory M⦄ where
  -- The head of the free list, or a page that was never used. The first word of a free page holds
  -- the next one, or 1 at the end of the list.
  unfoldable pub allocate_page : EKernel → M → Option (ℕ × EKernel × M)
  unfolding read_u32 write_n
  allocate_page k mem = elim k.next_free [
    | some ret ↦ (do
      (next_free, mem) ← read_u32 ret mem
      mem ← write_n ret (replicate 128 0) mem
      some (ret, record k { next_free = if next_free == 1 then none else some next_free }, mem))
    | none ↦ some (k.page_bumper, record k { page_bumper = add32 k.page_bumper 128 }, mem)
  ]

  -- `none` also where the assertion fails.
  unfoldable pub free_page : ℕ → EKernel → M → Option (EKernel × M)
  unfolding write_n
  free_page addr k mem =
      if bit_and addr (128 - 1) == 0
      then (do
        mem ← write_n addr (le_bytes32 (old_free k.next_free)) mem
        some (record k { next_free = some addr }, mem))
      else none

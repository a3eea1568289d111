-- ===== src/Kernel/Load.antt =====
-- src/blf4/std_kernel/load_user_binary.rs: an object file is put into memory and the processor made
-- ready for it. `none` is a panic.
use telda.Prelude.{
  ℕ, ◌-◌, Bool, true, false, Option, none, some, List, [], ◌∷◌, bit_or, ◌==◌, u16, sub16, length,
  if◌then◌else◌,
}
use telda.Mem.{MainMemory, ◌>>=◌}
use telda.Align.{page_size, align_start, align_end}
use telda.Blf4.Registers.{Blf4}
use telda.Blf4.Paging.{perm_r, perm_w, perm_x}
use telda.Machine.{Machine, install_emulated_kernel}
use telda.Obj.{Object, SegmentType, Entry, Flags, unknown, zero, data_segment, ro_data, text, heap}
use telda.Kernel.{EKernel, new, allocate_page}
use telda.Kernel.Mmap.{asserts, add_segment, map_wr_pages}

abbrev pub unwrap_or {ℓ} : {A : Type ℓ} → Option A → A → A
unwrap_or none default = default
unwrap_or (some a) default = a

abbrev pub readable_text : Option Flags → Bool
readable_text none = false
readable_text (some f) = f.readable_text

unfoldable pub permissions : SegmentType → Bool → ℕ
permissions data_segment readable_text = bit_or perm_w perm_r
permissions ro_data readable_text = perm_r
permissions text readable_text = if readable_text then bit_or perm_x perm_r else perm_x
permissions heap readable_text = bit_or perm_r perm_w
permissions zero readable_text = bit_or (bit_or perm_x perm_w) perm_r
permissions unknown readable_text = bit_or (bit_or perm_x perm_w) perm_r

abbrev pub is_heap : SegmentType → Bool
is_heap heap = true
is_heap _ = false

abbrev pub entry_point : Option Entry → ℕ → ℕ
entry_point none program_counter = program_counter
entry_point (some entry) program_counter = entry.location

-- The processor of a user program.
abbrev pub user_cpu : Object → ℕ → Blf4 → Blf4
user_cpu obj page_table1 cpu = record cpu {
  flags = record cpu.flags { virtual_mode = true; user_mode = true };
  stack = 0xffff;
  frame = 0xffff;
  program_counter = entry_point obj.entry cpu.program_counter;
  page = u16 page_table1;
}

module _ {M : Type 0} ⦃mm : MainMemory M⦄ where
  -- A segment, and behind a heap segment the rest of the heap.
  unfoldable pub load_segment :
      (page_table1 heap_size : ℕ)
      → Bool
      → SegmentType × ℕ × List ℕ
      → EKernel
      → M
      → Option (EKernel × M)
  unfolding add_segment map_wr_pages align_end permissions
  load_segment page_table1 heap_size readable (seg, offset, bytes) k mem = do
    (k, mem) ← add_segment page_table1 (permissions seg readable) offset bytes k mem
    if is_heap seg
        then map_wr_pages page_table1 (align_end offset page_size)
            (sub16 heap_size (u16 (length bytes))) k mem
        else some (k, mem)

  unfoldable pub load_segments :
      (page_table1 heap_size : ℕ)
      → Bool
      → List (SegmentType × ℕ × List ℕ)
      → EKernel
      → M
      → Option (EKernel × M)
  unfolding load_segment
  load_segments page_table1 heap_size readable [] k mem = some (k, mem)
  load_segments page_table1 heap_size readable (seg ∷ segs) k mem = do
    (k, mem) ← load_segment page_table1 heap_size readable seg k mem
    load_segments page_table1 heap_size readable segs k mem

  unfoldable pub load_user_binary : Object → Machine M EKernel → Option (Machine M EKernel)
  unfolding new allocate_page load_segments map_wr_pages align_start install_emulated_kernel
  load_user_binary obj m = do
    (page_table1, k, mem) ← allocate_page new m.memory
    _ ← asserts (u16 page_table1 == page_table1)
    let heap_size = unwrap_or obj.heap_size 0x400
    let stack_size = unwrap_or obj.stack_size 0x180
    (k, mem) ← load_segments page_table1 heap_size (readable_text obj.flags) obj.segs k mem
    let stack_start = align_start (0xffff - (stack_size - 1)) page_size
    (k, mem) ← map_wr_pages page_table1 stack_start stack_size k mem
    some
        (install_emulated_kernel k
          (record { memory = mem; cpu = user_cpu obj page_table1 m.cpu; ekernel = m.ekernel })).1

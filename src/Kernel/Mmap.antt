-- ===== src/Kernel/Mmap.antt =====
-- src/blf4/std_kernel.rs: `MmapBuilder`, the pages of a user program. `none` is a panic.
use telda.Prelude.{
  ℕ, zero, suc, ◌+◌, ◌-◌, ◌*◌, ◌/◌, Bool, ◌&&◌, not, Option, none, some, List, bit_and, bit_or,
  ◌==◌, ltb, leb, if◌then◌else◌, u8, u16, add16, add32, shl32, shr, le_bytes32, length, take, drop,
  min,
}
use telda.Mem.{MainMemory, read_u32, write_n, ◌>>=◌}
use telda.Align.{page_size, align_start}
use telda.Kernel.{EKernel, allocate_page}

-- `assert!`
abbrev pub asserts : Bool → Option (Unit {0})
asserts b = if b then some tt else none

-- The page that an entry names, without the reserved bits.
abbrev pub page_of : ℕ → ℕ
page_of pte = bit_and (shr pte 8) 0xff_ff80

abbrev pub or_page_of : Option ℕ → ℕ → ℕ
or_page_of none pte = page_of pte
or_page_of (some paddr) pte = paddr

-- `bytes[start..end]`
abbrev pub slice : List ℕ → ℕ → ℕ → Option (List ℕ)
slice bytes start end =
    if leb start end && leb end (length bytes)
    then some (take (end - start) (drop start bytes))
    else none

-- How many steps of a page `(start..end).step_by(PAGE_SIZE)` takes.
abbrev pub steps : ℕ → ℕ → ℕ
steps start end = (end - start + (page_size - 1)) / page_size

module _ {M : Type 0} ⦃mm : MainMemory M⦄ where
  -- An entry of either table. A missing one gets a new page, one that lacks permissions gets them.
  -- The result is the entry, as it was read or made, and the new page if there is one.
  unfoldable pub map_entry :
      (pte_addr flags_byte : ℕ) → EKernel → M → Option (ℕ × Option ℕ × EKernel × M)
  unfolding read_u32 write_n allocate_page
  map_entry pte_addr flags_byte k mem = do
    (pte, mem) ← read_u32 pte_addr mem
    let perm_byte = u8 pte
    if bit_and pte 1 == 0
        then (do
          (page, k, mem) ← allocate_page k mem
          let pte = bit_or (shl32 page 8) flags_byte
          mem ← write_n pte_addr (le_bytes32 pte) mem
          some (pte, some page, k, mem))
        else if not (bit_and perm_byte flags_byte == flags_byte)
        then (do
          mem ← mm.write pte_addr (bit_or perm_byte flags_byte) mem
          some (pte, none, k, mem))
        else some (pte, none, k, mem)

  unfoldable pub map : (page_table1 virt flags_byte : ℕ) → EKernel → M → Option (ℕ × EKernel × M)
  unfolding map_entry
  map page_table1 virt flags_byte k mem = do
    _ ← asserts (bit_and virt (page_size - 1) == 0)
    _ ← asserts (bit_and flags_byte 1 == 1)
    _ ← asserts (bit_and flags_byte 0xc0 == 0)
    let vpn1 = shr virt 12
    let vpn2 = bit_and (shr virt 7) 0x1f
    (pte1, _, k, mem) ← map_entry (add32 page_table1 (vpn1 * 4)) flags_byte k mem
    (pte2, paddr, k, mem) ← map_entry (add32 (page_of pte1) (vpn2 * 4)) flags_byte k mem
    some (or_page_of paddr pte2, k, mem)

  -- The part of a segment at `offset` that lies in the page at `vaddr`, written to the page `paddr`.
  unfoldable pub write_page : (offset vaddr paddr : ℕ) → List ℕ → M → Option M
  unfolding write_n
  write_page offset vaddr paddr bytes mem =
      if ltb vaddr offset
      then (let page_offset = offset - vaddr in
          do
            bytes ← slice bytes 0 (min (page_size - page_offset) (length bytes))
            write_n (add32 paddr page_offset) bytes mem)
      else (let start = vaddr - offset in
          do
            bytes ← slice bytes start (min (start + page_size) (length bytes))
            write_n paddr bytes mem)

  unfoldable pub add_pages :
      (n page_table1 perm_bits offset vaddr : ℕ) → List ℕ → EKernel → M → Option (EKernel × M)
  unfolding map write_page
  add_pages zero page_table1 perm_bits offset vaddr bytes k mem = some (k, mem)
  add_pages (suc n) page_table1 perm_bits offset vaddr bytes k mem = do
    (paddr, k, mem) ← map page_table1 vaddr perm_bits k mem
    mem ← write_page offset vaddr paddr bytes mem
    add_pages n page_table1 perm_bits offset (vaddr + page_size) bytes k mem

  unfoldable pub add_segment :
      (page_table1 permissions offset : ℕ) → List ℕ → EKernel → M → Option (EKernel × M)
  unfolding add_pages align_start
  add_segment page_table1 permissions offset bytes k mem = do
    _ ← asserts (bit_and permissions 0xc0 == 0)
    let start_vpage = align_start offset page_size
    let end = add16 offset (u16 (length bytes))
    add_pages (steps start_vpage end) page_table1 (bit_or permissions 0x21) offset start_vpage bytes
        k mem

  unfoldable pub map_pages :
      (n page_table1 virt flags_byte : ℕ) → EKernel → M → Option (EKernel × M)
  unfolding map
  map_pages zero page_table1 virt flags_byte k mem = some (k, mem)
  map_pages (suc n) page_table1 virt flags_byte k mem = do
    (_, k, mem) ← map page_table1 virt flags_byte k mem
    map_pages n page_table1 (virt + page_size) flags_byte k mem

  -- The end of the range stops at the last address.
  unfoldable pub map_wr_pages : (page_table1 virt size : ℕ) → EKernel → M → Option (EKernel × M)
  unfolding map_pages
  map_wr_pages page_table1 virt size k mem = do
    _ ← asserts (bit_and virt (page_size - 1) == 0)
    map_pages (steps virt (min (virt + size) 0xffff)) page_table1 virt 0x37 k mem

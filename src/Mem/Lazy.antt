-- ===== src/Mem/Lazy.antt =====
-- src/mem.rs: `LazyMain`, ports below 0x80, ROM below 0x8000, RAM below 0x1_0000, and cells of
-- 64 KiB that are made at the first write. An array is a function of its index; an index out of
-- its range is a panic, `none`.
use telda.Prelude.{
  ℕ, ◌-◌, Option, none, some, List, bit_and, ltb, leb, ◌==◌, if◌then◌else◌, u8, shr, not, length,
  get_elem?,
}
use telda.Align.{page_size}
use telda.Mem.{MainMemory}
use telda.Mem.Io.{Io}

abbrev pub half_cell : ℕ
half_cell = 0x8000

abbrev pub rom_size : ℕ
rom_size = half_cell - page_size

-- `[u8; n]` with one entry replaced
abbrev pub store {ℓ} : {A : Type ℓ} → (ℕ → A) → ℕ → A → ℕ → A
store f i v j = if i == j then v else f j

pub record LazyMain (P : Type 0) : Type 0 where
  pub rom : Option (ℕ → ℕ)
  pub ram0 : ℕ → ℕ
  pub cells : ℕ → Option (ℕ → ℕ)
  pub ports : P

-- One optional array read at an index, absent arrays reading as zero.
abbrev pub read_or_zero : Option (ℕ → ℕ) → ℕ → ℕ
read_or_zero none i = 0
read_or_zero (some a) i = a i

-- The cell after a write: a fresh one holds zeros elsewhere.
abbrev pub write_cell : Option (ℕ → ℕ) → ℕ → ℕ → ℕ → ℕ
write_cell none i v = store (λ _. 0) i v
write_cell (some a) i v = store a i v

module _ {P : Type 0} where
  abbrev pub with_ports : LazyMain P → ℕ × P → ℕ × LazyMain P
  with_ports m (v, ports) = (v, record m { ports = ports })

  unfoldable pub read_cell : ℕ → ℕ → LazyMain P → Option (ℕ × LazyMain P)
  read_cell cell_index addr m =
      if ltb (cell_index - 1) 255
      then some (read_or_zero (m.cells (cell_index - 1)) (bit_and addr 0xffff), m)
      else none

  unfoldable pub write_cells : ℕ → ℕ → LazyMain P → Option (LazyMain P)
  write_cells addr byte m =
      let cell_index = shr addr 16 - 1 in
      let index = bit_and addr 0xffff in
      if ltb cell_index 255
      then some (record m {
        cells = store m.cells cell_index (some (write_cell (m.cells cell_index) index byte));
      })
      else none

  unfoldable pub new : P → LazyMain P
  new ports = record { rom = none; ram0 = λ _. 0; cells = λ _. none; ports = ports }

  -- The array is filled from an index below `rom_size` each, so a shorter slice panics as well as
  -- a longer one.
  unfoldable pub with_rom : List ℕ → LazyMain P → Option (LazyMain P)
  with_rom bytes m =
      if leb (length bytes) rom_size
      then (if ltb (length bytes) rom_size
          then none
          else some
              (record m { rom = some (λ i. elim (get_elem? bytes i) [ none ↦ 0 | some b ↦ b ]) }))
      else none

module _ {P : Type 0} ⦃io : Io P⦄ where
  unfoldable pub lazy_read : ℕ → LazyMain P → Option (ℕ × LazyMain P)
  unfolding read_cell
  lazy_read addr m =
      let cell_index = shr addr 16 in
      if not (cell_index == 0)
      then read_cell cell_index addr m
      else if ltb addr page_size
      then elim (io.read (u8 addr) m.ports) [ none ↦ none | some r ↦ some (with_ports m r) ]
      else if ltb addr half_cell
      then some (read_or_zero m.rom (addr - page_size), m)
      else some (m.ram0 (addr - half_cell), m)

  unfoldable pub lazy_write : ℕ → ℕ → LazyMain P → Option (LazyMain P)
  unfolding write_cells
  lazy_write addr byte m =
      if ltb addr page_size
      then elim (io.write (u8 addr) byte m.ports) [
        | none ↦ none
        | some p ↦ some (record m { ports = p })
      ]
      else if ltb addr half_cell
      then some m
      else if ltb addr 0x1_0000
      then some (record m { ram0 = store m.ram0 (addr - half_cell) byte })
      else write_cells addr byte m

instance abbrev pub lazy_main : {P : Type 0} ⦃io : Io P⦄ → MainMemory (LazyMain P)
lazy_main = record { read = lazy_read; write = lazy_write }

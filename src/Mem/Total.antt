-- ===== src/Mem/Total.antt =====
-- src/mem.rs: the accesses of `LazyMain` below 2 ^ 24, on ports that obey their laws.
use telda.Prelude.{
  ℕ, ◌-◌, ◌^◌, ◌≤◌, ◌<◌, ◌≡◌, refl, arith, Option, none, some, inl, inr, IsByte, ltb, ◌==◌, u8, shr,
  Bool-cases, not-ltb→le, bit_and,
}
use telda.Align.{page_size}
use telda.Mem.{MemoryLaws}
use telda.Mem.Io.{Io}
use telda.Mem.Lazy.{
  LazyMain, lazy_main, lazy_read, lazy_write, write_cells, write_cell, store, read_or_zero,
  half_cell,
}

-- What the memory relies on: an access of a valid port returns, gives a byte and leaves it valid.
pub record IoLaws {P : Type 0} (io : Io P) : Type 1 where
  pub IsReady : P → Type 0
  pub read-total :
      (addr : ℕ) (p : P)
      → IsByte addr
      → IsReady p
      → (v : ℕ) × (p' : P) × (io.read addr p ≡ some (v, p')) × IsByte v × IsReady p'
  pub write-total :
      (addr v : ℕ) (p : P)
      → IsByte addr
      → IsByte v
      → IsReady p
      → (p' : P) × (io.write addr v p ≡ some p') × IsReady p'

abbrev pub HoldsBytes : (ℕ → ℕ) → Type 0
HoldsBytes f = (i : ℕ) → IsByte (f i)

abbrev pub OptionHoldsBytes : Option (ℕ → ℕ) → Type 0
OptionHoldsBytes none = Unit
OptionHoldsBytes (some f) = HoldsBytes f

read_or_zero-IsByte : (o : Option (ℕ → ℕ)) (i : ℕ) → OptionHoldsBytes o → IsByte (read_or_zero o i)
read_or_zero-IsByte none i h = omega arith
read_or_zero-IsByte (some f) i h = h i

store-HoldsBytes : (f : ℕ → ℕ) (i v : ℕ) → HoldsBytes f → IsByte v → HoldsBytes (store f i v)
store-HoldsBytes f i v h b j = ground (arith, h j)

write_cell-HoldsBytes :
    (o : Option (ℕ → ℕ)) (i v : ℕ) → OptionHoldsBytes o → IsByte v → HoldsBytes (write_cell o i v)
write_cell-HoldsBytes none i v h b = store-HoldsBytes (λ _. 0) i v (λ _. omega arith) b
write_cell-HoldsBytes (some f) i v h b = store-HoldsBytes f i v h b

store-cells :
    (cells : ℕ → Option (ℕ → ℕ)) (i : ℕ) (f : ℕ → ℕ)
    → ((j : ℕ) → OptionHoldsBytes (cells j))
    → HoldsBytes f
    → (j : ℕ) → OptionHoldsBytes (store cells i (some f) j)
store-cells cells i f h hf j = elim (Bool-cases (i == j)) [ inl e ↦ rw e hf | inr e ↦ rw e (h j) ]

module _ {P : Type 0} ⦃io : Io P⦄ (laws : IoLaws io) where
  pub record IsLazyMain (m : LazyMain P) : Type 0 where
    pub rom_bytes : OptionHoldsBytes m.rom
    pub ram_bytes : HoldsBytes m.ram0
    pub cell_bytes : (i : ℕ) → OptionHoldsBytes (m.cells i)
    pub ports_ready : laws.IsReady m.ports

  module _ (addr : ℕ) (m : LazyMain P) (h : addr < 2 ^ 24) (ok : IsLazyMain m) where
    -- On valid ports and a memory of bytes, reading an address below 2 ^ 24 does not panic, gives a
    -- byte and leaves such a memory.
    pub lazy_read-total :
        (v : ℕ) × (m' : LazyMain P) × (lazy_read addr m ≡ some (v, m')) × IsByte v × IsLazyMain m'
    unfolding lazy_read
    lazy_read-total = elim (Bool-cases (shr addr 16 == 0)) [
      | inr high ↦ rw high (
        read_or_zero (m.cells (shr addr 16 - 1)) (bit_and addr 0xffff),
        m,
        ground arith,
        read_or_zero-IsByte (m.cells (shr addr 16 - 1)) _ (ok.cell_bytes _),
        ok,
      )
      | inl low ↦ rw low (elim (Bool-cases (ltb addr page_size)) [
        | inl port ↦
            let (v, p, e, b, r) = laws.read-total (u8 addr) m.ports (omega arith) ok.ports_ready in
            (
              v,
              record m { ports = p },
              rw (port, e),
              b,
              record {
                rom_bytes = ok.rom_bytes;
                ram_bytes = ok.ram_bytes;
                cell_bytes = ok.cell_bytes;
                ports_ready = r;
              },
            )
        | inr no_port ↦ elim (Bool-cases (ltb addr half_cell)) [
          | inl rom ↦ (
            read_or_zero m.rom (addr - page_size),
            m,
            rw (no_port, rom),
            read_or_zero-IsByte m.rom _ ok.rom_bytes,
            ok,
          )
          | inr ram ↦ (m.ram0 (addr - half_cell), m, rw (no_port, ram), ok.ram_bytes _, ok)
        ]
      ])
    ]

    write_cells-total :
        (v : ℕ)
        → IsByte v
        → 0x1_0000 ≤ addr
        → (m' : LazyMain P) × (write_cells addr v m ≡ some m') × IsLazyMain m'
    unfolding write_cells
    write_cells-total v b ge =
        let i : ℕ = shr addr 16 - 1 in
        let f : ℕ → ℕ = write_cell (m.cells i) (bit_and addr 0xffff) v in
        (
          record m { cells = store m.cells i (some f) },
          ground arith,
          record {
            rom_bytes = ok.rom_bytes;
            ram_bytes = ok.ram_bytes;
            cell_bytes =
                store-cells m.cells i f ok.cell_bytes
                  (write_cell-HoldsBytes (m.cells i) _ v (ok.cell_bytes i) b);
            ports_ready = ok.ports_ready;
          },
        )

    -- On valid ports and a memory of bytes, writing a byte to an address below 2 ^ 24 does not panic
    -- and leaves such a memory.
    pub lazy_write-total :
        (v : ℕ) → IsByte v → (m' : LazyMain P) × (lazy_write addr v m ≡ some m') × IsLazyMain m'
    unfolding lazy_write
    lazy_write-total v b = elim (Bool-cases (ltb addr page_size)) [
      | inl port ↦
          let (p, e, r) = laws.write-total (u8 addr) v m.ports (omega arith) b ok.ports_ready in
          (
            record m { ports = p },
            rw (port, e),
            record {
              rom_bytes = ok.rom_bytes;
              ram_bytes = ok.ram_bytes;
              cell_bytes = ok.cell_bytes;
              ports_ready = r;
            },
          )
      | inr no_port ↦ rw no_port (elim (Bool-cases (ltb addr half_cell)) [
        | inl rom ↦ rw rom (m, refl, ok)
        | inr no_rom ↦ rw no_rom (elim (Bool-cases (ltb addr 0x1_0000)) [
          | inl ram ↦ rw ram (
            record m { ram0 = store m.ram0 (addr - half_cell) v },
            refl,
            record {
              rom_bytes = ok.rom_bytes;
              ram_bytes = store-HoldsBytes m.ram0 _ v ok.ram_bytes b;
              cell_bytes = ok.cell_bytes;
              ports_ready = ok.ports_ready;
            },
          )
          | inr cell ↦ rw cell (write_cells-total v b (omega (arith, not-ltb→le addr 0x1_0000)))
        ])
      ])
    ]

  -- An access of a valid memory below 2 ^ 24 returns, gives a byte and leaves a valid memory.
  unfoldable pub lazy_main-laws : MemoryLaws (lazy_main {P = P})
  lazy_main-laws = record {
    IsValid = IsLazyMain;
    read-total = lazy_read-total;
    write-total = λ addr v m h b ok. lazy_write-total addr m h ok v b;
  }

-- ===== src/Mem/Ram.antt =====
-- src/mem.rs: reads of `LazyMain` above the ROM, before and after a write.
use telda.Prelude.{
  ℕ, ◌-◌, ◌^◌, ◌<◌, ◌≤◌, ◌≡◌, refl, ap, ◌∙◌, arith, Option, some, none, true, false, ltb, ◌==◌,
  if◌then◌else◌, shr, bit_and, inl, inr, Bool-cases,
}
use telda.Prelude.Bits.{bit_and_mask}
use telda.Align.{page_size}
use telda.Mem.Io.{Io}
use telda.Mem.Lazy.{
  LazyMain, lazy_read, lazy_write, read_cell, write_cells, half_cell, store, write_cell,
  read_or_zero,
}

-- The byte at an address above the ROM.
abbrev pub byte_of : {P : Type 0} → LazyMain P → ℕ → ℕ
byte_of m addr =
    if ltb addr 0x1_0000
    then m.ram0 (addr - half_cell)
    else read_or_zero (m.cells (shr addr 16 - 1)) (bit_and addr 0xffff)

module _ {P : Type 0} ⦃io : Io P⦄ (m : LazyMain P) where
  lazy_read-byte_of :
      (addr : ℕ) → half_cell ≤ addr → addr < 2 ^ 24 → lazy_read addr m ≡ some (byte_of m addr, m)
  unfolding lazy_read read_cell
  lazy_read-byte_of addr h k = elim (Bool-cases (ltb addr 0x1_0000)) [
    | inl low ↦
        let a : (shr addr 16 == 0) ≡ true = ground arith in
        let b : ltb addr page_size ≡ false = ground arith in
        let c : ltb addr half_cell ≡ false = ground arith in rw (low, a, b, c) refl
    | inr high ↦
        let a : (shr addr 16 == 0) ≡ false = ground arith in
        let b : ltb (shr addr 16 - 1) 255 ≡ true = ground arith in rw (high, a, b) refl
  ]

-- A cell after a write holds the byte written, and the other bytes that it held.
read-write_cell :
    (o : Option (ℕ → ℕ)) (i v j : ℕ)
    → read_or_zero (some (write_cell o i v)) j ≡ (if i == j then v else read_or_zero o j)
read-write_cell none i v j = refl
read-write_cell (some f) i v j = refl

-- The memory after a write to a cell.
abbrev stored : {P : Type 0} → LazyMain P → ℕ → ℕ → LazyMain P
stored m a v =
    let i = shr a 16 - 1 in
    record m { cells = store m.cells i (some (write_cell (m.cells i) (bit_and a 0xffff) v)) }

module _ {P : Type 0} (m : LazyMain P) (a b v : ℕ) (ha : half_cell ≤ a) (hb : half_cell ≤ b) where
  byte_of-ram0 :
      ltb a 0x1_0000 ≡ true
      → byte_of (record m { ram0 = store m.ram0 (a - half_cell) v }) b
        ≡ (if a == b then v else byte_of m b)
  byte_of-ram0 low = elim (Bool-cases (ltb b 0x1_0000)) [
    | inl e ↦
        let same : (a - half_cell == b - half_cell) ≡ (a == b) = ground arith in rw (e, same) refl
    | inr e ↦ let other : (a == b) ≡ false = ground arith in rw (e, other) refl
  ]

  byte_of-cells :
      ltb a 0x1_0000 ≡ false → byte_of (stored m a v) b ≡ (if a == b then v else byte_of m b)
  byte_of-cells high = elim (Bool-cases (ltb b 0x1_0000)) [
    | inl e ↦ let other : (a == b) ≡ false = ground arith in rw (e, other) refl
    | inr e ↦ elim (Bool-cases (shr a 16 - 1 == shr b 16 - 1)) [
      | inl cell ↦
          let i = shr a 16 - 1 in
          let at = bit_and a 0xffff in
          let bt = bit_and b 0xffff in
          let same_cell : i ≡ shr b 16 - 1 = ground arith in
          let same : (at == bt) ≡ (a == b) = ground (arith, bit_and_mask 16 a, bit_and_mask 16 b) in
          rw (e, cell)
            (read-write_cell (m.cells i) at v bt
              ∙ ap (λ t. if t then v else read_or_zero (m.cells i) bt) same
              ∙ ap (λ (k : ℕ). if a == b then v else read_or_zero (m.cells k) bt) same_cell)
      | inr cell ↦ let other : (a == b) ≡ false = ground arith in rw (e, cell, other) refl
    ]
  ]

-- Writing a byte to an address above the ROM changes what is read there, and leaves what is read at
-- any other address above the ROM.
pub lazy_write-lazy_read :
    {P : Type 0} ⦃io : Io P⦄ (m : LazyMain P) (a b v : ℕ)
    → half_cell ≤ a
    → a < 2 ^ 24
    → half_cell ≤ b
    → b < 2 ^ 24
    → (m' : LazyMain P) × (lazy_write a v m ≡ some m')
      × (lazy_read b m ≡ some (byte_of m b, m))
      × (lazy_read b m' ≡ some (if a == b then v else byte_of m b, m'))
unfolding lazy_write write_cells
lazy_write-lazy_read m a b v ha ka hb kb =
    let p : ltb a page_size ≡ false = ground arith in
    let r : ltb a half_cell ≡ false = ground arith in
    elim (Bool-cases (ltb a 0x1_0000)) [
      | inl low ↦
          let m' = record m { ram0 = store m.ram0 (a - half_cell) v } in
          (
            m',
            rw (p, r, low) refl,
            lazy_read-byte_of m b hb kb,
            lazy_read-byte_of m' b hb kb ∙ ap (λ x. some (x, m')) (byte_of-ram0 m a b v ha hb low),
          )
      | inr high ↦
          let c : ltb (shr a 16 - 1) 255 ≡ true = ground arith in
          let m' = stored m a v in
          (
            m',
            rw (p, r, high, c) refl,
            lazy_read-byte_of m b hb kb,
            lazy_read-byte_of m' b hb kb
                ∙ ap (λ x. some (x, m')) (byte_of-cells m a b v ha hb high),
          )
    ]

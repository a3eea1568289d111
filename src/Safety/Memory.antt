-- ===== src/Safety/Memory.antt =====
-- src/blf4/mod.rs: the range of the physical addresses that the page tables name.
use telda.Prelude.{
  ℕ, ◌+◌, ◌%◌, ◌-◌, ◌^◌, ◌≤◌, ◌<◌, ◌≡◌, arith, Bool, true, false, not, Option, none, some, List, [],
  ◌∷◌, ◌++◌, IsByte, IsWide, bit_and, bit_or, All, if◌then◌else◌, of_le_bytes32, shr, u8, add32,
}
use telda.Prelude.Bits.{bit_and-le, bit_or-lt}
use telda.Mem.{MainMemory, MemoryLaws, read_u32}
use telda.Blf4.Action.{
  Outcome, Ensures, returns, traps, Keeps, Any, bind, bind_const, Keeps-pure, Keeps-raise_if,
  Keeps-if,
}
use telda.Blf4.Registers.{Blf4}
use telda.Blf4.Trap.{TrapMode, level2_page_fault, illegal_operation}
use telda.Blf4.Context.{HandlerContext, of_read, physical_read, physical_write}
use telda.Blf4.Paging.{
  AccessMode, Entry, entry_addr, has_flag, flag_d, mode_fault, check_entry, level1, map_err,
  option_list, zip, is_write, read_entry, set_dirty, walk, addr_resolve,
}
use telda.Safety.Steady.{IsSteady, Holds, valid}

abbrev pub IsPhysical : ℕ → Type 0
IsPhysical addr = addr < 2 ^ 24

abbrev pub IsU32 : ℕ → Type 0
IsU32 x = x < 2 ^ 32

abbrev OptionByte : Option ℕ → Type 0
OptionByte none = Unit
OptionByte (some b) = IsByte b

-- An entry names the start of a page, and its dirty byte is a byte.
record IsEntry (e : Entry) : Type 0 where
  aligned : e.addr % 128 ≡ 0
  physical : IsPhysical e.addr
  dirty : OptionByte e.byte_with_dirty_flag

-- What `set_dirty` is given: addresses to write to and bytes to write.
abbrev IsDirty : List (ℕ × ℕ) → Type 0
IsDirty = All (λ d. IsPhysical d.0 × IsByte d.1)

dirty_if : (b : Bool) (x : ℕ) → OptionByte (if b then none else some (u8 x))
dirty_if true x = tt
dirty_if false x = omega arith

zip-IsDirty :
    (a b : ℕ) (x y : Option ℕ)
    → IsPhysical a
    → IsPhysical b
    → OptionByte x
    → OptionByte y
    → IsDirty (zip (a ∷ b ∷ []) (option_list x ++ option_list y))
zip-IsDirty a b none none p q u v = tt
zip-IsDirty a b none (some y) p q u v = ((p, v), tt)
zip-IsDirty a b (some x) none p q u v = ((p, u), tt)
zip-IsDirty a b (some x) (some y) p q u v = ((p, u), ((q, v), tt))

-- The last of four consecutive bytes is still in range.
pub entry_addr-fits :
    (table number : ℕ) → table ≤ 2 ^ 24 - 128 → number < 32 → entry_addr table number + 3 < 2 ^ 24
unfolding entry_addr
entry_addr-fits table number h k = omega arith

pub page_bound : (addr : ℕ) → addr % 128 ≡ 0 → IsPhysical addr → addr ≤ 2 ^ 24 - 128
page_bound addr h p = omega arith

paste_offset :
    (addr offset : ℕ)
    → addr % 128 ≡ 0
    → IsPhysical addr
    → offset < 128
    → IsPhysical (bit_or addr offset)
paste_offset addr offset h p k = bit_or-lt 24 addr offset p (omega arith)

module _ {M : Type 0} ⦃mm : MainMemory M⦄ (laws : MemoryLaws mm) where
  read_u32-total :
      (addr : ℕ) (m : M)
      → addr + 3 < 2 ^ 24
      → laws.IsValid m
      → (v : ℕ) × (m' : M) × (read_u32 addr m ≡ some (v, m')) × IsU32 v × laws.IsValid m'
  unfolding read_u32
  read_u32-total addr m h ok =
      let (a, m₁, e₁, b₁, ok₁) = laws.read-total addr m (omega arith) ok in
      let (b, m₂, e₂, b₂, ok₂) = laws.read-total (add32 addr 1) m₁ (omega arith) ok₁ in
      let (c, m₃, e₃, b₃, ok₃) = laws.read-total (add32 addr 2) m₂ (omega arith) ok₂ in
      let (d, m₄, e₄, b₄, ok₄) = laws.read-total (add32 addr 3) m₃ (omega arith) ok₃ in
      (of_le_bytes32 a b c d, m₄, rw (e₁, e₂, e₃, e₄), omega arith, ok₄)

module _ {M : Type 0} ⦃mm : MainMemory M⦄ (laws : MemoryLaws mm) {J : Blf4 → Type 0} where
  pub physical_read-IsByte :
      (addr : ℕ) → IsPhysical addr → Keeps (Holds laws J) IsByte (physical_read addr)
  unfolding physical_read
  physical_read-IsByte addr h c i =
      let (v, m, e, b, ok) = laws.read-total addr c.mem h i.mem in rw e (returns b (valid i.cpu ok))

  pub physical_write-Keeps :
      (addr v : ℕ) → IsPhysical addr → IsByte v → Keeps (Holds laws J) Any (physical_write addr v)
  unfolding physical_write
  physical_write-Keeps addr v h b c i =
      let (m, e, ok) = laws.write-total addr v c.mem h b i.mem in rw e (returns tt (valid i.cpu ok))

  pub read_u32-IsU32 :
      (addr : ℕ)
      → addr + 3 < 2 ^ 24
      → Keeps (Holds laws J) IsU32 (λ c. of_read c.cpu (read_u32 addr c.mem))
  read_u32-IsU32 addr h c i =
      let (v, m, e, b, ok) = read_u32-total laws addr c.mem h i.mem in
      rw e (returns b (valid i.cpu ok))

  check_entry-IsEntry :
      (raw : ℕ) (u : Bool) (mode : AccessMode)
      → IsU32 raw
      → Keeps (Holds laws J) IsEntry (check_entry raw u mode)
  unfolding check_entry
  check_entry-IsEntry raw u mode h = bind_const (Keeps-raise_if _ level2_page_fault) (
      bind_const (Keeps-raise_if _ illegal_operation) (
        bind_const (Keeps-raise_if _ (mode_fault mode)) (
          Keeps-pure (record {
            aligned = omega arith;
            physical = omega arith;
            dirty = dirty_if (has_flag raw flag_d) (bit_and raw 0xff);
          }))))

  read_entry-IsEntry :
      (addr : ℕ) (u : Bool) (mode : AccessMode)
      → addr + 3 < 2 ^ 24
      → Keeps (Holds laws J) IsEntry (read_entry addr u mode)
  unfolding read_entry
  read_entry-IsEntry addr u mode h c i =
      let (v, m, e, b, ok) = read_u32-total laws addr c.mem h i.mem in
      rw e (check_entry-IsEntry v u mode b _ (valid i.cpu ok))

  Keeps-map_err :
      {A : Type 0} {R : A → Type 0} (f : TrapMode → TrapMode) (o : Outcome (HandlerContext M) A)
      → Ensures (Holds laws J) R o
      → Ensures (Holds laws J) R (map_err f o)
  Keeps-map_err f _ (returns r i) = returns r i
  Keeps-map_err f _ (traps i) = traps i

  set_dirty-Keeps : (ds : List (ℕ × ℕ)) → IsDirty ds → Keeps (Holds laws J) Any (set_dirty ds)
  unfolding set_dirty
  set_dirty-Keeps [] h = Keeps-pure tt
  set_dirty-Keeps ((addr, b) ∷ ds) h =
      bind_const (physical_write-Keeps addr _ h.0.0 (bit_or-lt 8 b 0b0001_0000 h.0.1 (omega arith)))
        (set_dirty-Keeps ds h.1)

  module _ (steady : IsSteady J) where
    walk-IsPhysical :
        (addr : ℕ) (mode : AccessMode)
        → IsWide addr
        → Keeps (Holds laws J) IsPhysical (walk addr mode)
    unfolding walk
    walk-IsPhysical addr mode h c i =
        let a1 : entry_addr c.cpu.page (shr addr 12) + 3 < 2 ^ 24 =
          entry_addr-fits c.cpu.page _ (omega (arith, (steady.cpu c.cpu i.cpu).page))
            (omega arith) in
        bind
          (λ c i. Keeps-map_err level1 _ (read_entry-IsEntry _ c.cpu.flags.user_mode mode a1 c i))
          (λ e1 k1.
            let a2 : entry_addr e1.addr (bit_and (shr addr 7) 0x1f) + 3 < 2 ^ 24 =
              entry_addr-fits e1.addr _ (page_bound e1.addr k1.aligned k1.physical)
                (omega (arith, bit_and-le (shr addr 7) 0x1f)) in
            bind (read_entry-IsEntry _ c.cpu.flags.user_mode mode a2) (λ e2 k2.
              bind_const
                (Keeps-if (is_write mode)
                  (set_dirty-Keeps _ (
                    zip-IsDirty _ _ e1.byte_with_dirty_flag e2.byte_with_dirty_flag (omega arith)
                      (omega arith) k1.dirty k2.dirty))
                  (Keeps-pure tt))
                (Keeps-pure (
                  paste_offset e2.addr _ k2.aligned k2.physical
                    (omega (arith, bit_and-le addr 0x7f))))))
          c i

    pub addr_resolve-IsPhysical :
        (addr : ℕ) (mode : AccessMode)
        → IsWide addr
        → Keeps (Holds laws J) IsPhysical (addr_resolve addr mode)
    unfolding addr_resolve
    addr_resolve-IsPhysical addr mode h c i =
        Keeps-if (not c.cpu.flags.virtual_mode) (Keeps-pure (omega arith))
          (walk-IsPhysical addr mode h) c i

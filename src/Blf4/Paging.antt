-- ===== src/Blf4/Paging.antt =====
-- src/blf4/mod.rs: page table entries, the translation of an address, and its checks.
use telda.Prelude.{
  ℕ, Bool, true, false, not, ◌&&◌, Option, none, some, List, [], ◌∷◌, ◌++◌, bit_and, bit_or, ◌==◌,
  if◌then◌else◌, u8, add32, shl32, shr,
}
use telda.Mem.{MainMemory, read_u32}
use telda.Blf4.Trap.{
  TrapMode, level1_page_fault, level2_page_fault, illegal_operation, illegal_read, illegal_write,
  illegal_execute,
}
use telda.Blf4.Action.{Action, Outcome, done, trap, panic, pure, raise_if, gets, ◌>>=◌, ◌>>◌}
use telda.Blf4.Context.{HandlerContext, of_read, physical_write, the_flags}

abbrev pub perm_u : ℕ
perm_u = 0b0010_0000

abbrev pub flag_d : ℕ
flag_d = 0b0001_0000

abbrev pub perm_x : ℕ
perm_x = 0b1000

abbrev pub perm_w : ℕ
perm_w = 0b0100

abbrev pub perm_r : ℕ
perm_r = 0b0010

abbrev pub flag_p : ℕ
flag_p = 0b0001

pub data AccessMode : Type 0 where
  read write execute : AccessMode

-- `addr` is the start of the page; `byte_with_dirty_flag` is there if the entry was not dirty.
pub record Entry : Type 0 where
  pub addr : ℕ
  pub byte_with_dirty_flag : Option ℕ

unfoldable pub entry_addr : ℕ → ℕ → ℕ
entry_addr table_start number = add32 table_start (shl32 number 2)

abbrev pub has_flag : ℕ → ℕ → Bool
has_flag raw mask = not (bit_and raw mask == 0)

-- What an access in each mode needs.
unfoldable pub mode_flag : AccessMode → ℕ
mode_flag execute = perm_x
mode_flag write = perm_w
mode_flag read = perm_r

unfoldable pub mode_fault : AccessMode → TrapMode
mode_fault execute = illegal_execute
mode_fault write = illegal_write
mode_fault read = illegal_read

-- The checks of `read_entry` on the raw entry, in their order, and the entry that it gives.
unfoldable pub check_entry : {S : Type 0} → ℕ → Bool → AccessMode → Action S Entry
unfolding mode_flag mode_fault
check_entry raw_entry in_user_mode mode = do
  raise_if (not (bit_and raw_entry flag_p == 1)) level2_page_fault
  raise_if (in_user_mode && not (has_flag raw_entry perm_u)) illegal_operation
  raise_if (not (has_flag raw_entry (mode_flag mode))) (mode_fault mode)
  pure (record {
    addr = shl32 (shr raw_entry 15) 7;
    byte_with_dirty_flag =
        if has_flag raw_entry flag_d then none else some (u8 (bit_and raw_entry 0xff));
  })

-- `map_err`: a missing entry of the first table is a fault of level one.
abbrev pub level1 : TrapMode → TrapMode
level1 level2_page_fault = level1_page_fault
level1 tm = tm

abbrev pub map_err : {S A : Type 0} → (TrapMode → TrapMode) → Outcome S A → Outcome S A
map_err f (done a s) = done a s
map_err f (trap tm s) = trap (f tm) s
map_err f panic = panic

-- `[a, b].into_iter().zip(x.into_iter().chain(y))`: the first byte that is there goes with the
-- first address.
abbrev pub option_list : {A : Type 0} → Option A → List A
option_list none = []
option_list (some a) = a ∷ []

abbrev pub zip : {A B : Type 0} → List A → List B → List (A × B)
zip [] ys = []
zip (x ∷ xs) [] = []
zip (x ∷ xs) (y ∷ ys) = (x, y) ∷ zip xs ys

abbrev pub is_write : AccessMode → Bool
is_write write = true
is_write _ = false

module _ {M : Type 0} ⦃mm : MainMemory M⦄ where
  unfoldable pub read_entry : ℕ → Bool → AccessMode → Action (HandlerContext M) Entry
  unfolding check_entry
  read_entry addr in_user_mode mode = do
    raw_entry ← (λ c. of_read c.cpu (read_u32 addr c.mem))
    check_entry raw_entry in_user_mode mode

  unfoldable pub set_dirty : List (ℕ × ℕ) → Action (HandlerContext M) (Unit {0})
  set_dirty [] = pure tt
  set_dirty ((addr, undirty_byte) ∷ rest) = do
    physical_write addr (bit_or undirty_byte 0b0001_0000)
    set_dirty rest

  -- The walk through the two tables, in virtual mode.
  unfoldable pub walk : ℕ → AccessMode → Action (HandlerContext M) ℕ
  unfolding set_dirty
  walk addr mode = do
    let page_offset = bit_and addr 0x7f
    let vpn2 = bit_and (shr addr 7) 0x1f
    let vpn1 = shr addr 12
    table1_start ← gets (λ c. c.cpu.page)
    flags ← the_flags
    let in_user_mode = flags.user_mode
    let lvl1_entry_addr = entry_addr table1_start vpn1
    lvl1_entry ← (λ c. map_err level1 (read_entry lvl1_entry_addr in_user_mode mode c))
    let lvl2_entry_addr = entry_addr lvl1_entry.addr vpn2
    lvl2_entry ← read_entry lvl2_entry_addr in_user_mode mode
    let dirty =
        zip (lvl1_entry_addr ∷ lvl2_entry_addr ∷ []) (
          option_list lvl1_entry.byte_with_dirty_flag
          ++ option_list lvl2_entry.byte_with_dirty_flag)
    if is_write mode then set_dirty dirty else pure tt
    pure (bit_or lvl2_entry.addr page_offset)

  -- Direct mode uses the address as it is.
  unfoldable pub addr_resolve : ℕ → AccessMode → Action (HandlerContext M) ℕ
  addr_resolve addr mode = do
    flags ← the_flags
    if not flags.virtual_mode then pure addr else walk addr mode

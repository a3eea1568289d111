-- ===== src/Align.antt =====
-- src/lib.rs: the page size and the rounding of an address to a power of two.
pub mod Bounds
use telda.Prelude.{ℕ, ◌+◌, ◌-◌, bit_and, ◌==◌, if◌then◌else◌, add16, sub16}

abbrev pub page_size : ℕ
page_size = 128

-- `!x` at u16
abbrev pub not16 : ℕ → ℕ
not16 x = 0xffff - x

unfoldable pub align_start : ℕ → ℕ → ℕ
align_start addr alignment = let mask = not16 (sub16 alignment 1) in bit_and addr mask

unfoldable pub align_end : ℕ → ℕ → ℕ
align_end addr alignment =
    let mask = sub16 alignment 1 in
    let next_aligned = bit_and (add16 addr alignment) (not16 mask) in
    if bit_and addr mask == 0 then addr else next_aligned

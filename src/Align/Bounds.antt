-- ===== src/Align/Bounds.antt =====
-- src/lib.rs: rounding by masks against multiples of a power of two.
use native.Mathlib.Nat.{pow-suc, one-le-pow, mod-eq_of_lt, pow-le-pow_right}
use telda.Prelude.{
  ℕ, zero, suc, ◌+◌, ◌-◌, ◌*◌, ◌/◌, ◌%◌, ◌^◌, ◌≤◌, ◌<◌, ◌≡◌, arith, bit_and, IsWide,
}
use telda.Prelude.Bits.{bit_and_digit, bit_and_mask}
use telda.Align.{align_start, align_end}

-- A mask that keeps the bits from `k` up rounds down to a multiple of `2 ^ k`.
half-masked : (m n : ℕ) → ((2 * m - 2 * n) / 2 ≡ m - n) × ((2 * m - 2 * n) % 2 ≡ 0)
half-masked m n = omega arith

div-double : (a m : ℕ) → 1 ≤ m → a / (2 * m) ≡ a / 2 / m
div-double a m h = grind arith

pub bit_and_high : (k w a : ℕ) → k ≤ w → a < 2 ^ w → bit_and a (2 ^ w - 2 ^ k) ≡ a / 2 ^ k * 2 ^ k
bit_and_high zero w a h p = omega (arith, bit_and_mask w a, mod-eq_of_lt p)
bit_and_high (suc k) zero a h p = absurd (omega arith)
bit_and_high (suc k) (suc w) a h p =
    let ek : 2 ^ suc k ≡ 2 * 2 ^ k = omega (arith, pow-suc 2 k) in
    let ew : 2 ^ suc w ≡ 2 * 2 ^ w = omega (arith, pow-suc 2 w) in
    let q : ℕ = a / 2 / 2 ^ k in
    rw (ek, ew)
      (ground (
        arith,
        one-le-pow k 2,
        ew,
        bit_and_digit a (2 * 2 ^ w - 2 * 2 ^ k),
        bit_and_high k w (a / 2) (omega arith) (omega arith),
        half-masked (2 ^ w) (2 ^ k),
        div-double a (2 ^ k),
      ))

-- A power of two that fits a word.
pow_fits : (k : ℕ) → k < 16 → (1 ≤ 2 ^ k) × (2 ^ k ≤ 32768)
pow_fits k h = (
  one-le-pow k 2 (omega arith),
  pow-le-pow_right {n = 2} (omega arith) {i = k} {j = 15} (omega arith),
)

div-mul_bounds : (a m : ℕ) → 1 ≤ m → (a / m * m ≤ a) × (a < a / m * m + m) × (a / m * m % m ≡ 0)
div-mul_bounds a m h = (grind arith, grind arith, grind arith)

mod-eq-zero : (a m : ℕ) → 1 ≤ m → a % m ≡ 0 → a / m * m ≡ a
mod-eq-zero a m h e = grind arith

next_multiple : (a m : ℕ) → 1 ≤ m → (a + m) / m * m ≡ a / m * m + m
next_multiple a m h = grind arith

module _ (k addr : ℕ) (h : k < 16) (p : IsWide addr) where
  -- Rounding down gives the greatest multiple of the alignment that is not above the address.
  pub align_start-IsFloor :
      (align_start addr (2 ^ k) % 2 ^ k ≡ 0)
      × (align_start addr (2 ^ k) ≤ addr)
      × (addr < align_start addr (2 ^ k) + 2 ^ k)
  unfolding align_start
  align_start-IsFloor = ground (
    arith,
    pow_fits k h,
    bit_and_high k 16 addr (omega arith) p,
    div-mul_bounds addr (2 ^ k) (pow_fits k h).0,
  )

  -- Rounding up gives the least multiple of the alignment that is not below the address, if the
  -- sum that the code forms fits a word.
  pub align_end-IsCeiling :
      addr + 2 ^ k < 2 ^ 16
      → (align_end addr (2 ^ k) % 2 ^ k ≡ 0)
        × (addr ≤ align_end addr (2 ^ k))
        × (align_end addr (2 ^ k) < addr + 2 ^ k)
  unfolding align_end
  align_end-IsCeiling fits = ground (
    arith,
    pow_fits k h,
    bit_and_mask k addr,
    mod-eq-zero addr (2 ^ k),
    next_multiple addr (2 ^ k) (pow_fits k h).0,
    bit_and_high k 16 (addr + 2 ^ k) (omega arith) fits,
    div-mul_bounds addr (2 ^ k) (pow_fits k h).0,
    div-mul_bounds (addr + 2 ^ k) (2 ^ k) (pow_fits k h).0,
  )

-- ===== src/U4.antt =====
-- src/u4.rs: four-bit numbers, the operand halves of an instruction byte.
use telda.Prelude.{
  ℕ, ◌+◌, ◌/◌, ◌%◌, ◌*◌, ◌^◌, ◌<◌, ◌≡◌, Option, none, some, arith, bit_and, bit_or, leb,
}
use telda.Prelude.{if◌then◌else◌, u8, shr, IsByte}
use telda.Prelude.Bits.{bit_and_mask, bit_or_shifted}

abbrev pub U4 : Type 0
U4 = ℕ

-- `none` is the panic on a value that is too big.
unfoldable pub new : ℕ → Option U4
new n = if leb n 0xf then some n else none

unfoldable pub paired : ℕ → U4 × U4
paired n = (shr n 4, bit_and n 0xf)

unfoldable pub pair : U4 → U4 → ℕ
pair a b = bit_or (u8 (a * 2 ^ 4)) b

pub paired-lt : (n : ℕ) → IsByte n → ((paired n).0 < 16) × ((paired n).1 < 16)
unfolding paired
paired-lt n h = (omega arith, omega (arith, bit_and_mask 4 n))

-- Packing two four-bit numbers gives a byte, and splitting it gives them back.
pub paired-pair : (a b : ℕ) → a < 16 → b < 16 → (paired (pair a b) ≡ (a, b)) × IsByte (pair a b)
unfolding paired pair
paired-pair a b ha hb = ground (arith, bit_or_shifted 4 a b, bit_and_mask 4 (a * 16 + b))

-- Splitting a byte into its halves and packing them gives the byte.
pub pair-paired : (n : ℕ) → IsByte n → pair (paired n).0 (paired n).1 ≡ n
unfolding paired pair
pair-paired n h = ground (arith, bit_and_mask 4 n, bit_or_shifted 4 (n / 16) (n % 16))

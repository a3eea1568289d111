-- ===== src/Isa/Words/Range.antt =====
-- src/blf4/isa/handlers.rs: the range of the results of the arithmetic operations.
use telda.Prelude.{ℕ, suc, ◌/◌, ◌%◌, ◌^◌, ◌≤◌, ◌<◌, arith, bit_and, bit_or, bit_xor}
use telda.Prelude.Bits.{bit_and-le, bit_or-lt, bit_xor-lt}
use telda.Prelude.Int.{of_signed-lt}
use telda.Isa.Words.{UnsignedOp, modulus, overflowing_add, overflowing_sub, bitwise, shl, lsr, asr}

-- `op` gives words of `k + 1` bits at words of `k + 1` bits.
abbrev pub Fits : ℕ → UnsignedOp → Type 0
Fits k op = (x y : ℕ) → x < modulus k → y < modulus k → (op x y).0 < modulus k

module _ (k : ℕ) (h : 1 ≤ 2 ^ k) where
  pub overflowing_add-Fits : Fits k (overflowing_add k)
  unfolding overflowing_add
  overflowing_add-Fits x y p q = omega arith

  pub overflowing_sub-Fits : Fits k (overflowing_sub k)
  unfolding overflowing_sub
  overflowing_sub-Fits x y p q = omega arith

  pub bit_and-Fits : Fits k (bitwise k bit_and)
  bit_and-Fits x y p q = omega (arith, bit_and-le x y)

  pub shl-Fits : Fits k (bitwise k (shl k))
  unfolding shl
  shl-Fits x y p q = omega arith

  pub lsr-Fits : Fits k (bitwise k (lsr k))
  unfolding lsr
  lsr-Fits x y p q = shrinks x (2 ^ (y % suc k)) (modulus k) p
    where
      shrinks : (x d m : ℕ) → x < m → x / d < m
      shrinks x d m h = grind arith

  pub asr-Fits : Fits k (asr k)
  unfolding asr
  asr-Fits x y p q = of_signed-lt k _ h

pub bit_or-Fits_byte : Fits 7 (bitwise 7 bit_or)
bit_or-Fits_byte x y p q = bit_or-lt 8 x y p q

pub bit_or-Fits_wide : Fits 15 (bitwise 15 bit_or)
bit_or-Fits_wide x y p q = bit_or-lt 16 x y p q

pub bit_xor-Fits_byte : Fits 7 (bitwise 7 bit_xor)
bit_xor-Fits_byte x y p q = bit_xor-lt 8 x y p q

pub bit_xor-Fits_wide : Fits 15 (bitwise 15 bit_xor)
bit_xor-Fits_wide x y p q = bit_xor-lt 16 x y p q

-- ===== src/Isa/Words.antt =====
-- src/blf4/isa/handlers.rs: the operations that the arithmetic handlers are given, on words of
-- `k + 1` bits and on their signed readings. A shift takes its distance modulo the width, as the
-- release profile does.
pub mod Range
use telda.Prelude.{
  ℕ, suc, ◌+◌, ◌-◌, ◌*◌, ◌/◌, ◌%◌, ◌^◌, Bool, false, bit_and, bit_or, bit_xor, ltb, leb,
}
use telda.Prelude.Int.{ℤ, pos, negsuc, ◌+ℤ◌, ◌-ℤ◌, to_signed, of_signed, in_range, overflowing}

-- The number of values of a word of `k + 1` bits.
abbrev pub modulus : ℕ → ℕ
modulus k = 2 ^ k + 2 ^ k

abbrev pub UnsignedOp : Type 0
UnsignedOp = ℕ → ℕ → ℕ × Bool

abbrev pub SignedOp : Type 0
SignedOp = ℤ → ℤ → ℤ × Bool

-- `x >> s` on a signed number rounds down.
abbrev pub shr_signed : ℤ → ℕ → ℤ
shr_signed (pos n) s = pos (n / 2 ^ s)
shr_signed (negsuc n) s = negsuc (n / 2 ^ s)

module _ (k : ℕ) where
  unfoldable pub overflowing_add : UnsignedOp
  overflowing_add x y = ((x + y) % modulus k, leb (modulus k) (x + y))

  unfoldable pub signed_overflowing_add : SignedOp
  unfolding overflowing ◌+ℤ◌
  signed_overflowing_add x y = overflowing k (x +ℤ y)

  unfoldable pub overflowing_sub : UnsignedOp
  overflowing_sub x y = ((x + modulus k - y) % modulus k, ltb x y)

  unfoldable pub signed_overflowing_sub : SignedOp
  unfolding overflowing ◌-ℤ◌
  signed_overflowing_sub x y = overflowing k (x -ℤ y)

  -- A bitwise operation, and the same on the patterns of signed numbers.
  abbrev pub bitwise : (ℕ → ℕ → ℕ) → UnsignedOp
  bitwise f x y = (f x y, false)

  abbrev pub signed_bitwise : (ℕ → ℕ → ℕ) → SignedOp
  signed_bitwise f x y = (to_signed k (f (of_signed k x) (of_signed k y)), false)

  unfoldable pub shl : ℕ → ℕ → ℕ
  shl x y = x * 2 ^ (y % suc k) % modulus k

  unfoldable pub lsr : ℕ → ℕ → ℕ
  lsr x y = x / 2 ^ (y % suc k)

  unfoldable pub asr : UnsignedOp
  unfolding to_signed of_signed
  asr x y = (of_signed k (shr_signed (to_signed k x) (y % suc k)), false)

  unfoldable pub signed_asr : SignedOp
  unfolding of_signed
  signed_asr x y = (shr_signed x (of_signed k y % suc k), false)

-- ===== src/Isa/Arith.antt =====
-- src/blf4/isa/handlers.rs: arithmetic and bitwise instructions.
use telda.Prelude.{
  ℕ, ◌*◌, ◌/◌, ◌%◌, ◌^◌, Bool, not, bit_and, bit_or, bit_xor, ◌==◌, low_byte, high_byte,
}
use telda.Prelude.Int.{ℤ, is_negative, to_signed}
use telda.Mem.{MainMemory}
use telda.Blf4.Trap.{invalid, zero_div}
use telda.Blf4.Action.{raise_if, ◌>>=◌, ◌>>◌}
use telda.Blf4.Flags.{Blf4Flags}
use telda.Blf4.Context.{get_br, put_br, get_wr, put_wr, set_flags}
use telda.Isa.Args.{arg_pair}
use telda.Isa.System.{Handler}
use telda.Isa.Words.{
  UnsignedOp, SignedOp, overflowing_add, signed_overflowing_add, overflowing_sub,
  signed_overflowing_sub, bitwise, signed_bitwise, shl, lsr, asr, signed_asr,
}

-- The four flags after an operation with the unsigned and the signed result.
unfoldable pub result_flags : ℕ × Bool → ℤ × Bool → Blf4Flags → Blf4Flags
result_flags (res, carry) (ires, overflowing) f = record f {
  carry = carry;
  overflow = overflowing;
  sign = is_negative ires;
  zero = res == 0;
}

-- The flags after a multiplication with the given halves, of words of `k + 1` bits.
unfoldable pub product_flags : ℕ → ℕ → ℕ → Blf4Flags → Blf4Flags
product_flags k upper lower f = record f {
  carry = not (upper == 0);
  overflow = not (upper == 0);
  zero = lower == 0;
  sign = is_negative (to_signed k lower);
}

module _ {M : Type 0} ⦃mm : MainMemory M⦄ where
  unfoldable pub binop_b : UnsignedOp → SignedOp → Handler M
  unfolding result_flags
  binop_b binop ibinop = do
    (r1, r2) ← arg_pair
    (r3, r4) ← arg_pair
    x ← get_br r2
    y ← get_br r3
    raise_if (not (r4 == 0)) invalid
    set_flags (result_flags (binop x y) (ibinop (to_signed 7 x) (to_signed 7 y)))
    put_br r1 (binop x y).0

  unfoldable pub binop_w : UnsignedOp → SignedOp → Handler M
  unfolding result_flags
  binop_w binop ibinop = do
    (r1, r2) ← arg_pair
    (r3, r4) ← arg_pair
    x ← get_wr r2
    y ← get_wr r3
    raise_if (not (r4 == 0)) invalid
    set_flags (result_flags (binop x y) (ibinop (to_signed 15 x) (to_signed 15 y)))
    put_wr r1 (binop x y).0

  unfoldable pub add_b : Handler M
  unfolding binop_b
  add_b = binop_b (overflowing_add 7) (signed_overflowing_add 7)

  unfoldable pub add_w : Handler M
  unfolding binop_w
  add_w = binop_w (overflowing_add 15) (signed_overflowing_add 15)

  unfoldable pub sub_b : Handler M
  unfolding binop_b
  sub_b = binop_b (overflowing_sub 7) (signed_overflowing_sub 7)

  unfoldable pub sub_w : Handler M
  unfolding binop_w
  sub_w = binop_w (overflowing_sub 15) (signed_overflowing_sub 15)

  unfoldable pub and_b : Handler M
  unfolding binop_b
  and_b = binop_b (bitwise 7 bit_and) (signed_bitwise 7 bit_and)

  unfoldable pub and_w : Handler M
  unfolding binop_w
  and_w = binop_w (bitwise 15 bit_and) (signed_bitwise 15 bit_and)

  unfoldable pub or_b : Handler M
  unfolding binop_b
  or_b = binop_b (bitwise 7 bit_or) (signed_bitwise 7 bit_or)

  unfoldable pub or_w : Handler M
  unfolding binop_w
  or_w = binop_w (bitwise 15 bit_or) (signed_bitwise 15 bit_or)

  unfoldable pub xor_b : Handler M
  unfolding binop_b
  xor_b = binop_b (bitwise 7 bit_xor) (signed_bitwise 7 bit_xor)

  unfoldable pub xor_w : Handler M
  unfolding binop_w
  xor_w = binop_w (bitwise 15 bit_xor) (signed_bitwise 15 bit_xor)

  unfoldable pub shl_b : Handler M
  unfolding binop_b
  shl_b = binop_b (bitwise 7 (shl 7)) (signed_bitwise 7 (shl 7))

  unfoldable pub shl_w : Handler M
  unfolding binop_w
  shl_w = binop_w (bitwise 15 (shl 15)) (signed_bitwise 15 (shl 15))

  unfoldable pub asr_b : Handler M
  unfolding binop_b
  asr_b = binop_b (asr 7) (signed_asr 7)

  unfoldable pub asr_w : Handler M
  unfolding binop_w
  asr_w = binop_w (asr 15) (signed_asr 15)

  unfoldable pub lsr_b : Handler M
  unfolding binop_b
  lsr_b = binop_b (bitwise 7 (lsr 7)) (signed_bitwise 7 (lsr 7))

  unfoldable pub lsr_w : Handler M
  unfolding binop_w
  lsr_w = binop_w (bitwise 15 (lsr 15)) (signed_bitwise 15 (lsr 15))

  unfoldable pub mul_b : Handler M
  unfolding product_flags
  mul_b = do
    (r1, r2) ← arg_pair
    (r3, r4) ← arg_pair
    x ← get_br r3
    y ← get_br r4
    let lower = low_byte (x * y)
    let upper = high_byte (x * y)
    set_flags (product_flags 7 upper lower)
    put_br r1 upper
    put_br r2 lower

  unfoldable pub mul_w : Handler M
  unfolding product_flags
  mul_w = do
    (r1, r2) ← arg_pair
    (r3, r4) ← arg_pair
    x ← get_wr r3
    y ← get_wr r4
    let lower = x * y % 2 ^ 16
    let upper = x * y / 2 ^ 16 % 2 ^ 16
    set_flags (product_flags 15 upper lower)
    put_wr r1 upper
    put_wr r2 lower

  unfoldable pub div_b : Handler M
  div_b = do
    (r1, r2) ← arg_pair
    (r3, r4) ← arg_pair
    n1 ← get_br r3
    n2 ← get_br r4
    raise_if (n2 == 0) zero_div
    put_br r1 (n1 / n2)
    put_br r2 (n1 % n2)

  unfoldable pub div_w : Handler M
  div_w = do
    (r1, r2) ← arg_pair
    (r3, r4) ← arg_pair
    n1 ← get_wr r3
    n2 ← get_wr r4
    raise_if (n2 == 0) zero_div
    put_wr r1 (n1 / n2)
    put_wr r2 (n1 % n2)

-- ===== src/Safety/Arith.antt =====
-- src/blf4/isa/handlers.rs: the arithmetic handlers, under the steady invariants.
use telda.Prelude.{ℕ, ◌*◌, ◌/◌, ◌%◌, ◌^◌, ◌<◌, refl, arith, not, IsWide, ◌==◌, low_byte, high_byte}
use telda.Prelude.Int.{to_signed}
use telda.Mem.{MainMemory, MemoryLaws}
use telda.Blf4.Trap.{invalid, zero_div}
use telda.Blf4.Action.{bind, bind_const, Keeps-raise_if}
use telda.Blf4.Registers.{Blf4}
use telda.Isa.Words.{
  UnsignedOp, SignedOp, overflowing_add, signed_overflowing_add, overflowing_sub,
  signed_overflowing_sub, signed_asr, bitwise, signed_bitwise, shl, lsr, asr,
}
use telda.Prelude.{bit_and, bit_or, bit_xor}
use telda.Isa.Words.Range.{
  Fits, overflowing_add-Fits, overflowing_sub-Fits, bit_and-Fits, bit_or-Fits_byte,
  bit_or-Fits_wide, bit_xor-Fits_byte, bit_xor-Fits_wide, shl-Fits, lsr-Fits, asr-Fits,
}
use telda.Isa.Arith.{
  binop_b, binop_w, result_flags, product_flags, add_b, add_w, sub_b, sub_w, and_b, and_w, or_b,
  or_w, xor_b, xor_w, shl_b, shl_w, asr_b, asr_w, lsr_b, lsr_w, mul_b, mul_w, div_b, div_w,
}
use telda.Safety.Steady.{IsWritable}
use telda.Safety.Access.{
  Safe, get_br-IsByte, get_wr-IsWide, put_br-Keeps, put_wr-Keeps, set_flags-Keeps,
  arg_pair-IsRegister,
}

quotient-le : (a b m : ℕ) → a < m → a / b < m
quotient-le a b m h = grind arith

remainder-le : (a b m : ℕ) → a < m → a % b < m
remainder-le a b m h = grind arith

product_high : (x y : ℕ) → x < 2 ^ 16 → y < 2 ^ 16 → IsWide (x * y / 2 ^ 16 % 2 ^ 16)
product_high x y h k = omega arith

module _ {M : Type 0} ⦃mm : MainMemory M⦄ (laws : MemoryLaws mm) {J : Blf4 → Type 0}
    (writable : IsWritable J) where
  pub binop_b-Keeps : (f : UnsignedOp) (g : SignedOp) → Fits 7 f → Safe laws writable (binop_b f g)
  unfolding binop_b
  binop_b-Keeps f g fits = bind (arg_pair-IsRegister laws writable.steady) λ (r1, r2) h.
      bind (arg_pair-IsRegister laws writable.steady) λ (r3, r4) k.
        bind (get_br-IsByte laws writable.steady r2 h.1) λ x hx.
          bind (get_br-IsByte laws writable.steady r3 k.0) λ y hy.
            bind_const (Keeps-raise_if (not (r4 == 0)) invalid) (
              bind_const
                (set_flags-Keeps laws writable.steady
                  (result_flags (f x y) (g (to_signed 7 x) (to_signed 7 y)))
                  (λ _. (refl, refl, refl)))
                (put_br-Keeps laws writable r1 (f x y).0 h.0 (fits x y hx hy)))

  pub add_b-Keeps : Safe laws writable add_b
  unfolding add_b
  add_b-Keeps =
      binop_b-Keeps (overflowing_add 7) (signed_overflowing_add 7)
        (overflowing_add-Fits 7 (omega arith))

  pub sub_b-Keeps : Safe laws writable sub_b
  unfolding sub_b
  sub_b-Keeps =
      binop_b-Keeps (overflowing_sub 7) (signed_overflowing_sub 7)
        (overflowing_sub-Fits 7 (omega arith))

  pub and_b-Keeps : Safe laws writable and_b
  unfolding and_b
  and_b-Keeps =
      binop_b-Keeps (bitwise 7 bit_and) (signed_bitwise 7 bit_and) (bit_and-Fits 7 (omega arith))

  pub or_b-Keeps : Safe laws writable or_b
  unfolding or_b
  or_b-Keeps = binop_b-Keeps (bitwise 7 bit_or) (signed_bitwise 7 bit_or) bit_or-Fits_byte

  pub xor_b-Keeps : Safe laws writable xor_b
  unfolding xor_b
  xor_b-Keeps = binop_b-Keeps (bitwise 7 bit_xor) (signed_bitwise 7 bit_xor) bit_xor-Fits_byte

  pub shl_b-Keeps : Safe laws writable shl_b
  unfolding shl_b
  shl_b-Keeps =
      binop_b-Keeps (bitwise 7 (shl 7)) (signed_bitwise 7 (shl 7)) (shl-Fits 7 (omega arith))

  pub asr_b-Keeps : Safe laws writable asr_b
  unfolding asr_b
  asr_b-Keeps = binop_b-Keeps (asr 7) (signed_asr 7) (asr-Fits 7 (omega arith))

  pub lsr_b-Keeps : Safe laws writable lsr_b
  unfolding lsr_b
  lsr_b-Keeps =
      binop_b-Keeps (bitwise 7 (lsr 7)) (signed_bitwise 7 (lsr 7)) (lsr-Fits 7 (omega arith))

  pub mul_b-Keeps : Safe laws writable mul_b
  unfolding mul_b
  mul_b-Keeps = bind (arg_pair-IsRegister laws writable.steady) λ (r1, r2) h.
      bind (arg_pair-IsRegister laws writable.steady) λ (r3, r4) k.
        bind (get_br-IsByte laws writable.steady r3 k.0) λ x hx.
          bind (get_br-IsByte laws writable.steady r4 k.1) λ y hy.
            bind_const
              (set_flags-Keeps laws writable.steady
                (product_flags 7 (high_byte (x * y)) (low_byte (x * y))) (λ _. (refl, refl, refl)))
              (bind_const (put_br-Keeps laws writable r1 (high_byte (x * y)) h.0 (omega arith))
                (put_br-Keeps laws writable r2 (low_byte (x * y)) h.1 (omega arith)))

  pub div_b-Keeps : Safe laws writable div_b
  unfolding div_b
  div_b-Keeps = bind (arg_pair-IsRegister laws writable.steady) λ (r1, r2) h.
      bind (arg_pair-IsRegister laws writable.steady) λ (r3, r4) k.
        bind (get_br-IsByte laws writable.steady r3 k.0) λ x hx.
          bind (get_br-IsByte laws writable.steady r4 k.1) λ y hy.
            bind_const (Keeps-raise_if (y == 0) zero_div) (
              bind_const (put_br-Keeps laws writable r1 (x / y) h.0 (quotient-le x y _ hx))
                (put_br-Keeps laws writable r2 (x % y) h.1 (remainder-le x y _ hx)))

  pub binop_w-Keeps : (f : UnsignedOp) (g : SignedOp) → Fits 15 f → Safe laws writable (binop_w f g)
  unfolding binop_w
  binop_w-Keeps f g fits = bind (arg_pair-IsRegister laws writable.steady) λ (r1, r2) h.
      bind (arg_pair-IsRegister laws writable.steady) λ (r3, r4) k.
        bind (get_wr-IsWide laws writable.steady r2 h.1) λ x hx.
          bind (get_wr-IsWide laws writable.steady r3 k.0) λ y hy.
            bind_const (Keeps-raise_if (not (r4 == 0)) invalid) (
              bind_const
                (set_flags-Keeps laws writable.steady
                  (result_flags (f x y) (g (to_signed 15 x) (to_signed 15 y)))
                  (λ _. (refl, refl, refl)))
                (put_wr-Keeps laws writable r1 (f x y).0 h.0 (fits x y hx hy)))

  pub add_w-Keeps : Safe laws writable add_w
  unfolding add_w
  add_w-Keeps =
      binop_w-Keeps (overflowing_add 15) (signed_overflowing_add 15)
        (overflowing_add-Fits 15 (omega arith))

  pub sub_w-Keeps : Safe laws writable sub_w
  unfolding sub_w
  sub_w-Keeps =
      binop_w-Keeps (overflowing_sub 15) (signed_overflowing_sub 15)
        (overflowing_sub-Fits 15 (omega arith))

  pub and_w-Keeps : Safe laws writable and_w
  unfolding and_w
  and_w-Keeps =
      binop_w-Keeps (bitwise 15 bit_and) (signed_bitwise 15 bit_and) (bit_and-Fits 15 (omega arith))

  pub or_w-Keeps : Safe laws writable or_w
  unfolding or_w
  or_w-Keeps = binop_w-Keeps (bitwise 15 bit_or) (signed_bitwise 15 bit_or) bit_or-Fits_wide

  pub xor_w-Keeps : Safe laws writable xor_w
  unfolding xor_w
  xor_w-Keeps = binop_w-Keeps (bitwise 15 bit_xor) (signed_bitwise 15 bit_xor) bit_xor-Fits_wide

  pub shl_w-Keeps : Safe laws writable shl_w
  unfolding shl_w
  shl_w-Keeps =
      binop_w-Keeps (bitwise 15 (shl 15)) (signed_bitwise 15 (shl 15)) (shl-Fits 15 (omega arith))

  pub asr_w-Keeps : Safe laws writable asr_w
  unfolding asr_w
  asr_w-Keeps = binop_w-Keeps (asr 15) (signed_asr 15) (asr-Fits 15 (omega arith))

  pub lsr_w-Keeps : Safe laws writable lsr_w
  unfolding lsr_w
  lsr_w-Keeps =
      binop_w-Keeps (bitwise 15 (lsr 15)) (signed_bitwise 15 (lsr 15)) (lsr-Fits 15 (omega arith))

  pub mul_w-Keeps : Safe laws writable mul_w
  unfolding mul_w
  mul_w-Keeps = bind (arg_pair-IsRegister laws writable.steady) λ (r1, r2) h.
      bind (arg_pair-IsRegister laws writable.steady) λ (r3, r4) k.
        bind (get_wr-IsWide laws writable.steady r3 k.0) λ x hx.
          bind (get_wr-IsWide laws writable.steady r4 k.1) λ y hy.
            bind_const
              (set_flags-Keeps laws writable.steady
                (product_flags 15 (x * y / 2 ^ 16 % 2 ^ 16) (x * y % 2 ^ 16))
                (λ _. (refl, refl, refl)))
              (bind_const
                (put_wr-Keeps laws writable r1 (x * y / 2 ^ 16 % 2 ^ 16) h.0 (omega arith))
                (put_wr-Keeps laws writable r2 (x * y % 2 ^ 16) h.1 (omega arith)))

  pub div_w-Keeps : Safe laws writable div_w
  unfolding div_w
  div_w-Keeps = bind (arg_pair-IsRegister laws writable.steady) λ (r1, r2) h.
      bind (arg_pair-IsRegister laws writable.steady) λ (r3, r4) k.
        bind (get_wr-IsWide laws writable.steady r3 k.0) λ x hx.
          bind (get_wr-IsWide laws writable.steady r4 k.1) λ y hy.
            bind_const (Keeps-raise_if (y == 0) zero_div) (
              bind_const (put_wr-Keeps laws writable r1 (x / y) h.0 (quotient-le x y _ hx))
                (put_wr-Keeps laws writable r2 (x % y) h.1 (remainder-le x y _ hx)))

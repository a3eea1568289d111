-- ===== src/Source/Ins/Fetches/Handlers.antt =====
-- src/blf4/isa/handlers.rs: the operands that each handler fetches.
use telda.Prelude.{Bool, if◌then◌else◌}
use telda.Prelude.Int.{to_signed}
use telda.Mem.{MainMemory}
use telda.Blf4.Action.{pure, ◌>>=◌, ◌>>◌}
use telda.Blf4.Flags.{Blf4Flags}
use telda.Blf4.Context.{set_flags, set_program_counter}
use telda.Isa.Opcode
use telda.Isa.System.{Handler}
use telda.Isa.Words.{UnsignedOp, SignedOp}
use telda.Isa.Arith.{result_flags}
use telda.Source.Ins.Fetches.{Operand, Operands, Fetches}
use telda.Source.Operand.Format.{wide_number, one, three_bytes, three_wides}

module _ (M : Type 0) ⦃mm : MainMemory M⦄ where
  -- A jump, with its condition.
  unfoldable jumps : (Blf4Flags → Bool) → Blf4Flags → Operands M (one wide_number) → Handler M
  unfolding Operands Operand
  jumps taken f w = if taken f then set_program_counter w else pure tt

  unfoldable computes_b : UnsignedOp → SignedOp → Blf4Flags → Operands M three_bytes → Handler M
  unfolding Operands Operand
  computes_b binop ibinop f (r1, r2, r3, check_zero) = do
    x ← r2.get
    y ← r3.get
    check_zero
    set_flags (result_flags (binop x y) (ibinop (to_signed 7 x) (to_signed 7 y)))
    r1.put (binop x y).0

  unfoldable computes_w : UnsignedOp → SignedOp → Blf4Flags → Operands M three_wides → Handler M
  unfolding Operands Operand
  computes_w binop ibinop f (r1, r2, r3, check_zero) = do
    x ← r2.get
    y ← r3.get
    check_zero
    set_flags (result_flags (binop x y) (ibinop (to_signed 15 x) (to_signed 15 y)))
    r1.put (binop x y).0

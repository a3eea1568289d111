-- ===== src/Isa/Args.antt =====
-- src/blf4/isa/handlers.rs: the operands of an instruction.
use telda.Prelude.{ℕ, wide_of}
use telda.Mem.{MainMemory}
use telda.U4.{U4, paired}
use telda.Blf4.Action.{Action, pure, ◌>>=◌}
use telda.Blf4.Context.{HandlerContext}
use telda.Blf4.Access.{fetch}

module _ {M : Type 0} ⦃mm : MainMemory M⦄ where
  -- The callers' `Br`, `Wr` and `u8::from` only rename the two numbers.
  unfoldable pub arg_pair : Action (HandlerContext M) (U4 × U4)
  arg_pair = do operand ← fetch; pure (paired operand)

  unfoldable pub arg_imm_byte : Action (HandlerContext M) ℕ
  arg_imm_byte = fetch

  unfoldable pub arg_imm_wide : Action (HandlerContext M) ℕ
  arg_imm_wide = do l ← fetch; h ← fetch; pure (wide_of l h)

-- ===== src/Source/Operand/Forms.antt =====
-- src/source/mod.rs: the operand forms with three and with four operands.
use telda.Prelude.{ℕ, some, none}
use telda.Source.{
  SourceLocation, Wide, DataOperand, wide_imm_byte, wide_imm_wide, two_wide_one_byte, byte_wide_imm,
  two_wide_imm, byte_two_wide, three_byte, three_wide, four_byte, four_wide,
}
use telda.Source.Operand.{
  Reader, ◌>>=◌, ◌>>◌, pure, required, next, as_byte, as_wide, imm_wide, parse_nothing,
}

abbrev pub next_byte : Reader ℕ
next_byte = do op ← next; required (as_byte op)

abbrev pub next_wide : Reader ℕ
next_wide = do op ← next; required (as_wide op)

abbrev pub next_imm : SourceLocation → Reader Wide
next_imm sl = do op ← next; imm_wide op sl

unfoldable pub parse_three_byte : Reader DataOperand
parse_three_byte = do
  reg1 ← next
  reg2 ← next
  reg3 ← next
  reg1 ← required (as_byte reg1)
  reg2 ← required (as_byte reg2)
  reg3 ← required (as_byte reg3)
  pure (three_byte reg1 reg2 reg3)

unfoldable pub parse_three_wide : Reader DataOperand
parse_three_wide = do
  reg1 ← next
  reg2 ← next
  reg3 ← next
  reg1 ← required (as_wide reg1)
  reg2 ← required (as_wide reg2)
  reg3 ← required (as_wide reg3)
  pure (three_wide reg1 reg2 reg3)

unfoldable pub parse_wide_imm_byte : SourceLocation → Reader DataOperand
parse_wide_imm_byte sl = do
  reg1 ← next_wide
  imm ← next_imm sl
  reg2 ← next_byte
  pure (wide_imm_byte reg1 imm reg2)

unfoldable pub parse_wide_imm_wide : SourceLocation → Reader DataOperand
parse_wide_imm_wide sl = do
  reg1 ← next_wide
  imm ← next_imm sl
  reg2 ← next_wide
  pure (wide_imm_wide reg1 imm reg2)

unfoldable pub parse_two_wide_one_byte : Reader DataOperand
parse_two_wide_one_byte = do
  reg1 ← next_wide
  reg2 ← next_wide
  reg3 ← next_byte
  pure (two_wide_one_byte reg1 reg2 reg3)

unfoldable pub parse_byte_wide_imm : SourceLocation → Reader DataOperand
parse_byte_wide_imm sl = do
  reg1 ← next_byte
  reg2 ← next_wide
  imm ← next_imm sl
  pure (byte_wide_imm reg1 reg2 imm)

unfoldable pub parse_two_wide_imm : SourceLocation → Reader DataOperand
parse_two_wide_imm sl = do
  reg1 ← next_wide
  reg2 ← next_wide
  imm ← next_imm sl
  pure (two_wide_imm reg1 reg2 imm)

unfoldable pub parse_byte_two_wide : Reader DataOperand
parse_byte_two_wide = do
  reg1 ← next_byte
  reg2 ← next_wide
  reg3 ← next_wide
  pure (byte_two_wide reg1 reg2 reg3)

-- A reader whose result is dropped.
abbrev pub dropped : {A : Type 0} → Reader A → Reader (Unit {0})
dropped m ops sym =
    let (result, sym) = m ops sym in
    elim result [ some (_, left) ↦ (some (tt, left), sym) | none ↦ (some (tt, ops), sym) ]

unfoldable pub parse_four_byte : Reader DataOperand
parse_four_byte = do
  reg1 ← next
  reg2 ← next
  reg3 ← next
  reg4 ← next
  dropped parse_nothing
  reg1 ← required (as_byte reg1)
  reg2 ← required (as_byte reg2)
  reg3 ← required (as_byte reg3)
  reg4 ← required (as_byte reg4)
  pure (four_byte reg1 reg2 reg3 reg4)

unfoldable pub parse_four_wide : Reader DataOperand
parse_four_wide = do
  reg1 ← next
  reg2 ← next
  reg3 ← next
  reg4 ← next
  dropped parse_nothing
  reg1 ← required (as_wide reg1)
  reg2 ← required (as_wide reg2)
  reg3 ← required (as_wide reg3)
  reg4 ← required (as_wide reg4)
  pure (four_wide reg1 reg2 reg3 reg4)

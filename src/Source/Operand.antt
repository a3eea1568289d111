-- ===== src/Source/Operand.antt =====
-- src/source/mod.rs: the operand forms of an instruction and how each is read from the operands that
-- a line has. A reader consumes the iterator and may enter labels, also when it fails in the end.
pub mod Forms
pub mod Format
pub mod Reading
pub mod Readers
use telda.Prelude.{ℕ, ◌≤◌, List, [], ◌∷◌, Option, none, some, arith}
use telda.Prelude.Int.{of_signed}
use telda.Blf4.Registers.{ByteRegister, WideRegister}
use telda.Source.{
  SourceOperand, byte, wide, byte_reg, wide_reg, Wide, SourceLocation, DataOperand, nothing,
  byte_register, wide_register, immediate_byte, immediate_wide, byte_imm, wide_imm, wide_imm_byte,
  wide_imm_wide, two_wide_one_byte, byte_wide_imm, two_wide_imm, byte_two_wide, three_byte,
  three_wide, four_byte, four_wide,
}
use telda.Source.Symbols.{Symbols, get_label}

unfoldable pub size : DataOperand → ℕ
size nothing = 0
size (byte_register _) = 1
size (wide_register _) = 1
size (immediate_byte _) = 1
size (immediate_wide _) = 2
size (byte_imm _ _) = 2
size (wide_imm _ _) = 3
size (wide_imm_byte _ _ _) = 3
size (wide_imm_wide _ _ _) = 3
size (two_wide_one_byte _ _ _) = 2
size (byte_wide_imm _ _ _) = 3
size (two_wide_imm _ _ _) = 3
size (byte_two_wide _ _ _) = 2
size (three_byte _ _ _) = 2
size (three_wide _ _ _) = 2
size (four_byte _ _ _ _) = 2
size (four_wide _ _ _ _) = 2

-- An operand takes at most three bytes.
pub size_le : (d : DataOperand) → size d ≤ 3
unfolding size
size_le nothing = omega arith
size_le (byte_register _) = omega arith
size_le (wide_register _) = omega arith
size_le (immediate_byte _) = omega arith
size_le (immediate_wide _) = omega arith
size_le (byte_imm _ _) = omega arith
size_le (wide_imm _ _) = omega arith
size_le (wide_imm_byte _ _ _) = omega arith
size_le (wide_imm_wide _ _ _) = omega arith
size_le (two_wide_one_byte _ _ _) = omega arith
size_le (byte_wide_imm _ _ _) = omega arith
size_le (two_wide_imm _ _ _) = omega arith
size_le (byte_two_wide _ _ _) = omega arith
size_le (three_byte _ _ _) = omega arith
size_le (three_wide _ _ _) = omega arith
size_le (four_byte _ _ _ _) = omega arith
size_le (four_wide _ _ _ _) = omega arith

-- The operands that are left, and the symbols.
abbrev pub Reader : Type 0 → Type 0
Reader A = List SourceOperand → Symbols → Option (A × List SourceOperand) × Symbols

abbrev pub continue :
    {A B : Type 0}
    → (A → Reader B)
    → Option (A × List SourceOperand) × Symbols
    → Option (B × List SourceOperand) × Symbols
continue f (none, sym) = (none, sym)
continue f (some (a, ops), sym) = f a ops sym

infixl 5 ◌>>=◌ ◌>>◌
abbrev pub ◌>>=◌ : {A B : Type 0} → Reader A → (A → Reader B) → Reader B
◌>>=◌ m f ops sym = continue f (m ops sym)

abbrev pub ◌>>◌ : {A B : Type 0} → Reader A → Reader B → Reader B
m >> k = m >>= λ _. k

abbrev pub pure : {A : Type 0} → A → Reader A
pure a ops sym = (some (a, ops), sym)

-- `?` on an option.
abbrev pub required : {A : Type 0} → Option A → Reader A
required (some a) ops sym = (some (a, ops), sym)
required none ops sym = (none, sym)

-- `ops.next()?`
abbrev pub next : Reader SourceOperand
next [] sym = (none, sym)
next (op ∷ ops) sym = (some (op, ops), sym)

-- `Self::byte`, `Self::wide` and `Self::imm_byte`
unfoldable pub as_byte : SourceOperand → Option ByteRegister
as_byte (byte_reg r) = some r
as_byte _ = none

unfoldable pub as_wide : SourceOperand → Option WideRegister
as_wide (wide_reg r) = some r
as_wide _ = none

unfoldable pub imm_byte : SourceOperand → Option ℕ
imm_byte (SourceOperand.number n) = some (of_signed 7 n)
imm_byte (byte n) = some n
imm_byte _ = none

unfoldable pub imm_wide : SourceOperand → SourceLocation → Reader Wide
imm_wide (SourceOperand.number n) sl ops sym = (some (Wide.number (of_signed 15 n), ops), sym)
imm_wide (wide n) sl ops sym = (some (Wide.number n, ops), sym)
imm_wide (SourceOperand.label lbl) sl ops sym =
    let (id, sym) = get_label lbl sl sym in (some (Wide.label id, ops), sym)
imm_wide _ sl ops sym = (none, sym)

unfoldable pub parse_nothing : Reader DataOperand
parse_nothing [] sym = (some (nothing, []), sym)
parse_nothing (_ ∷ _) sym = (none, sym)

unfoldable pub parse_breg : Reader DataOperand
parse_breg = do
  op ← next
  breg ← required (as_byte op)
  _ ← parse_nothing
  pure (byte_register breg)

unfoldable pub parse_wreg : Reader DataOperand
parse_wreg = do
  op ← next
  wreg ← required (as_wide op)
  _ ← parse_nothing
  pure (wide_register wreg)

unfoldable pub parse_imm_byte : Reader DataOperand
parse_imm_byte = do
  op ← next
  b ← required (imm_byte op)
  _ ← parse_nothing
  pure (immediate_byte b)

unfoldable pub parse_imm_wide : SourceLocation → Reader DataOperand
parse_imm_wide sl = do op ← next; w ← imm_wide op sl; _ ← parse_nothing; pure (immediate_wide w)

unfoldable pub parse_byte_imm : Reader DataOperand
parse_byte_imm = do
  reg1 ← next
  imm ← next
  reg1 ← required (as_byte reg1)
  imm ← required (imm_byte imm)
  pure (byte_imm reg1 imm)

unfoldable pub parse_wide_imm : SourceLocation → Reader DataOperand
parse_wide_imm sl = do
  reg1 ← next
  imm ← next
  reg1 ← required (as_wide reg1)
  imm ← imm_wide imm sl
  pure (wide_imm reg1 imm)

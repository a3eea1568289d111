-- ===== src/Source.antt =====
-- src/source/mod.rs, err.rs and symbols.rs: what a source file, its parsed lines and the processed
-- source are. A text is the list of its characters' code points.
pub mod Symbols
pub mod Operand
pub mod Ins
pub mod Encode
pub mod Text
pub mod Line
pub mod Partial
pub mod Segments
pub mod Process
pub mod Resolve
use Prim.Native.Char.{code}
use Prim.Native.String.{String}
use telda.Prelude.{ℕ, List, [], ◌∷◌, Bool, true, false, ◌&&◌, ◌==◌}
use telda.Prelude.Int.{ℤ}
use telda.Obj.{SegmentType}
use telda.Blf4.Registers.{ByteRegister, WideRegister}

abbrev pub Text : Type 0
Text = List ℕ

abbrev pub chars : String → Text
chars String.[] = []
chars (String.◌∷◌ c s) = code c ∷ chars s

abbrev pub same_text : Text → Text → Bool
same_text [] [] = true
same_text [] (d ∷ t) = false
same_text (c ∷ s) [] = false
same_text (c ∷ s) (d ∷ t) = c == d && same_text s t

-- `number` is an i32.
pub data SourceOperand : Type 0 where
  byte wide : ℕ → SourceOperand
  number : ℤ → SourceOperand
  byte_reg : ByteRegister → SourceOperand
  wide_reg : WideRegister → SourceOperand
  label : Text → SourceOperand

-- `Wide`: a number, or the id of a label.
pub data Wide : Type 0 where
  number : ℕ → Wide
  label : ℕ → Wide

pub data DataOperand : Type 0 where
  nothing : DataOperand
  byte_register : ByteRegister → DataOperand
  wide_register : WideRegister → DataOperand
  immediate_byte : ℕ → DataOperand
  immediate_wide : Wide → DataOperand
  byte_imm : ByteRegister → ℕ → DataOperand
  wide_imm : WideRegister → Wide → DataOperand
  wide_imm_byte : WideRegister → Wide → ByteRegister → DataOperand
  wide_imm_wide : WideRegister → Wide → WideRegister → DataOperand
  two_wide_one_byte : WideRegister → WideRegister → ByteRegister → DataOperand
  byte_wide_imm : ByteRegister → WideRegister → Wide → DataOperand
  two_wide_imm : WideRegister → WideRegister → Wide → DataOperand
  byte_two_wide : ByteRegister → WideRegister → WideRegister → DataOperand
  three_byte : ByteRegister → ByteRegister → ByteRegister → DataOperand
  three_wide : WideRegister → WideRegister → WideRegister → DataOperand
  four_byte : ByteRegister → ByteRegister → ByteRegister → ByteRegister → DataOperand
  four_wide : WideRegister → WideRegister → WideRegister → WideRegister → DataOperand

pub record SourceLocation : Type 0 where
  pub source : Text
  pub line_number : ℕ

pub record Address : Type 0 where
  pub segment : SegmentType
  pub offset : ℕ

-- Where a label is read.
pub record LabelRead : Type 0 where
  pub segment : SegmentType
  pub position : ℕ

-- What the messages of `ErrorType::Other` say.
pub data Message : Type 0 where
  already_set : Text → Address → Address → Message
  no_segment : Message
  defined_reference : Text → Address → Message
  never_defined : Text → Message
  invalid_byte invalid_wide : Text → Message

pub data ErrorType : Type 0 where
  unknown_segment unknown_instruction unknown_directive incorrect_operands : Text → ErrorType
  io_error unexpected_end_of_string invalid_escape_sequence escape_character_at_end : ErrorType
  double_entry character_literal_too_long : ErrorType
  invalid_escape_character : ℕ → ErrorType
  other : Message → ErrorType

-- One link of a chain of errors. A chain is a list of them; an absent error is the empty list.
pub record Error : Type 0 where
  pub source : Text
  pub ln : ℕ
  pub error : ErrorType

-- A result, or a panic.
pub data Checked (E A : Type 0) : Type 0 where
  ok : A → Checked E A
  err : E → Checked E A
  panics : Checked E A

infixl 5 ◌>>=◌
abbrev pub ◌>>=◌ : {E A B : Type 0} → Checked E A → (A → Checked E B) → Checked E B
ok a >>= f = f a
err e >>= f = err e
panics >>= f = panics

abbrev pub map_err : {E F A : Type 0} → (E → F) → Checked E A → Checked F A
map_err f (ok a) = ok a
map_err f (err e) = err (f e)
map_err f panics = panics

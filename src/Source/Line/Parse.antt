-- ===== src/Source/Line/Parse.antt =====
-- src/source/mod.rs: the parser of a line, its directives and its instructions.
use telda.Prelude.{Bool, true, ◌||◌, List, [], ◌∷◌, Option, none, some, if◌then◌else◌, length, drop}
use telda.Prelude.Int.{of_signed}
use telda.Source.{
  Text, chars, same_text, SourceOperand, byte, wide, number, byte_reg, wide_reg, ErrorType,
  unknown_directive, other, invalid_byte, invalid_wide, Checked, ok, err, ◌>>=◌,
}
use telda.Source.Text.{strip_prefix, strip_suffix, starts_with, find, split, trim, as_bytes}
use telda.Source.Line.{
  SourceLine, label, ins, comment, dir_include, dir_byte, dir_wide, dir_global, dir_reference,
  dir_seg, dir_entry, dir_string, literal, label_name, parse_number, parse_string,
}

unfoldable pub byte_directive : Text → Checked ErrorType SourceLine
byte_directive arg = do
  operand ← parse_number arg
  elim operand [
    | byte n ↦ ok (dir_byte n)
    | number n ↦ ok (dir_byte (of_signed 7 n))
    | _ ↦ err (other (invalid_byte arg))
  ]

unfoldable pub wide_directive : Text → Checked ErrorType SourceLine
wide_directive arg = do
  operand ← parse_number arg
  elim operand [
    | wide n ↦ ok (dir_wide (literal n))
    | number n ↦ ok (dir_wide (literal (of_signed 15 n)))
    | SourceOperand.label l ↦ ok (dir_wide (label_name l))
    | _ ↦ err (other (invalid_wide arg))
  ]

unfoldable pub string_directive : Text → Checked ErrorType SourceLine
string_directive arg = do
  string ← parse_string (length (as_bytes arg)) (as_bytes arg)
  ok (dir_string string)

-- The entry of a name in a list of arms.
unfoldable pub named {ℓ} : {A : Type ℓ} → Text → List (Text × A) → Option A
named s [] = none
named s ((name, arm) ∷ rest) = if same_text name s then some arm else named s rest

abbrev pub directives : List (Text × (Text → Checked ErrorType SourceLine))
directives =
    (chars "string", string_directive)
    ∷ (chars "byte", byte_directive)
    ∷ (chars "wide", wide_directive)
    ∷ (chars "word", wide_directive)
    ∷ (chars "include", λ arg. ok (dir_include arg))
    ∷ (chars "global", λ arg. ok (dir_global arg))
    ∷ (chars "globl", λ arg. ok (dir_global arg))
    ∷ (chars "ref", λ arg. ok (dir_reference arg))
    ∷ (chars "reference", λ arg. ok (dir_reference arg))
    ∷ (chars "seg", λ arg. ok (dir_seg arg))
    ∷ (chars "entry", λ _. ok dir_entry)
    ∷ []

-- What stands before the first blank, and after it.
unfoldable pub directive_name : Text → Text × Text
directive_name line = elim (find 0x20 line) [
  | none ↦ (line, [])
  | some (before, after) ↦ (before, drop 1 after)
]

unfoldable pub parse_directive : Text → Checked ErrorType SourceLine
parse_directive line =
    let (name, arg) = directive_name line in
    elim (named name directives) [
      | some directive ↦ directive arg
      | none ↦ err (unknown_directive name)
    ]

abbrev pub registers : List (Text × SourceOperand)
registers =
    (chars "r0b", byte_reg 0)
    ∷ (chars "r1l", byte_reg 1)
    ∷ (chars "r1h", byte_reg 2)
    ∷ (chars "r2l", byte_reg 3)
    ∷ (chars "r2h", byte_reg 4)
    ∷ (chars "r3l", byte_reg 5)
    ∷ (chars "r3h", byte_reg 6)
    ∷ (chars "r4l", byte_reg 7)
    ∷ (chars "r4h", byte_reg 8)
    ∷ (chars "r5l", byte_reg 9)
    ∷ (chars "r5h", byte_reg 10)
    ∷ (chars "r6b", byte_reg 11)
    ∷ (chars "r7b", byte_reg 12)
    ∷ (chars "r8b", byte_reg 13)
    ∷ (chars "r9b", byte_reg 14)
    ∷ (chars "r10b", byte_reg 15)
    ∷ (chars "r0", wide_reg 0)
    ∷ (chars "r1", wide_reg 1)
    ∷ (chars "r2", wide_reg 2)
    ∷ (chars "r3", wide_reg 3)
    ∷ (chars "r4", wide_reg 4)
    ∷ (chars "r5", wide_reg 5)
    ∷ (chars "r6", wide_reg 6)
    ∷ (chars "r7", wide_reg 7)
    ∷ (chars "r8", wide_reg 8)
    ∷ (chars "r9", wide_reg 9)
    ∷ (chars "r10", wide_reg 10)
    ∷ (chars "rs", wide_reg 11)
    ∷ (chars "rl", wide_reg 12)
    ∷ (chars "rf", wide_reg 13)
    ∷ (chars "rp", wide_reg 14)
    ∷ (chars "rh", wide_reg 15)
    ∷ []

unfoldable pub parse_operand : Text → Checked ErrorType SourceOperand
parse_operand arg = elim (named arg registers) [ some r ↦ ok r | none ↦ parse_number arg ]

unfoldable pub parse_operands : List Text → Checked ErrorType (List SourceOperand)
parse_operands [] = ok []
parse_operands (arg ∷ args) = do
  so ← parse_operand (trim arg)
  sos ← parse_operands args
  ok (so ∷ sos)

unfoldable pub is_comment : Text → Bool
is_comment [] = true
is_comment line =
    starts_with (chars ";") line || starts_with (chars "//") line || starts_with (chars "#") line

unfoldable pub parse_instruction : Text → Checked ErrorType SourceLine
parse_instruction line = elim (find 0x20 line) [
  | none ↦ ok (ins line [])
  | some (name, args) ↦
      let (arg, rest) = split b',' args in (do sos ← parse_operands (arg ∷ rest); ok (ins name sos))
]

-- The line is there already; an error at reading it is the caller's.
unfoldable pub inner_parse_line : Text → Checked ErrorType SourceLine
inner_parse_line line =
    let line = trim line in
    if is_comment line then ok comment else elim (strip_prefix (chars ".") line) [
      | some directive ↦ parse_directive directive
      | none ↦ elim (strip_suffix b':' line) [
        | some name ↦ ok (label name)
        | none ↦ parse_instruction line
      ]
    ]

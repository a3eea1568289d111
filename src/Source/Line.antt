-- ===== src/Source/Line.antt =====
-- src/source/mod.rs: the lines of a source file, and the parser of characters and numbers.
pub mod Parse
pub mod Quote
use telda.Prelude.{
  ℕ, zero, suc, ◌+◌, Option, length, List, [], ◌∷◌, none, some, ◌==◌, if◌then◌else◌, ◌||◌,
}
use telda.Prelude.Int.{of_signed}
use telda.Source.{
  Text, chars, same_text, SourceOperand, byte, wide, number, byte_reg, wide_reg, Wide, ErrorType,
  unknown_directive, unexpected_end_of_string, invalid_escape_sequence, escape_character_at_end,
  character_literal_too_long, invalid_escape_character, other, invalid_byte, invalid_wide, Checked,
  ok, err, panics, ◌>>=◌,
}
use telda.Source.Text.{
  strip_prefix, strip_suffix, starts_with, find, split, trim, as_bytes, unsigned_from_str_radix,
  signed_from_str_radix,
}

-- `dir_wide` has a number, or in its place a label.
pub data WideLiteral : Type 0 where
  literal : ℕ → WideLiteral
  label_name : Text → WideLiteral

pub data SourceLine : Type 0 where
  label : Text → SourceLine
  ins : Text → List SourceOperand → SourceLine
  comment : SourceLine
  dir_include : Text → SourceLine
  dir_string : List ℕ → SourceLine
  dir_byte : ℕ → SourceLine
  dir_wide : WideLiteral → SourceLine
  dir_global dir_reference dir_seg : Text → SourceLine
  dir_entry : SourceLine

-- The character that an escape sequence of two stands for.
unfoldable pub escaped : ℕ → Option ℕ
escaped c =
    if c == b'r'
    then some 0xd
    else if c == b't'
    then some 0x9
    else if c == b'n'
    then some 0xa
    else if c == b'0'
    then some 0
    else if c == 0x5c
    then some 0x5c
    else if c == 0x27
    then some 0x27
    else if c == 0x22
    then some 0x22
    else none

unfoldable pub hex_value : List ℕ → Option ℕ → Checked ErrorType (ℕ × List ℕ)
hex_value rest (some b) = ok (b, rest)
hex_value rest none = err invalid_escape_sequence

-- `s[2..4]` panics when fewer than two bytes are left.
unfoldable pub hex_escape : List ℕ → Checked ErrorType (ℕ × List ℕ)
hex_escape (h ∷ l ∷ rest) = hex_value rest (unsigned_from_str_radix 8 (h ∷ l ∷ []) 16)
hex_escape _ = panics

unfoldable pub parse_escape : List ℕ → Checked ErrorType (ℕ × List ℕ)
parse_escape [] = err escape_character_at_end
parse_escape (c ∷ rest) = elim (escaped c) [
  | some b ↦ ok (b, rest)
  | none ↦ if c == b'x' then hex_escape rest else err (invalid_escape_character c)
]

unfoldable pub parse_bytechar : List ℕ → Checked ErrorType (ℕ × List ℕ)
parse_bytechar [] = err unexpected_end_of_string
parse_bytechar (c ∷ rest) = if c == 0x5c then parse_escape rest else ok (c, rest)

-- `.or_else(|| i8::from_str_radix(..).ok().map(|b| b as u8))`, with the bits of the type.
unfoldable pub word_from_str_radix : ℕ → Text → ℕ → Option ℕ
word_from_str_radix k num radix = elim (unsigned_from_str_radix (k + 1) num radix) [
  | some n ↦ some n
  | none ↦ elim (signed_from_str_radix k num radix) [ none ↦ none | some z ↦ some (of_signed k z) ]
]

-- The radix that the prefix of a number tells, and the rest.
unfoldable pub radix_of : Text → ℕ × Text
radix_of arg = elim (strip_prefix (chars "0x") arg) [
  | some num ↦ (16, num)
  | none ↦ elim (strip_prefix (chars "0b") arg) [
    | some num ↦ (2, num)
    | none ↦ elim (strip_prefix (chars "0o") arg) [ some num ↦ (8, num) | none ↦ (10, arg) ]
  ]
]

-- `SourceOperand::Label(arg.to_owned())` when there is no number.
abbrev pub operand_or : Text → (ℕ → SourceOperand) → Option ℕ → Checked ErrorType SourceOperand
operand_or arg made none = ok (SourceOperand.label arg)
operand_or arg made (some n) = ok (made n)

-- `arg.strip_prefix('\'').and_then(|a| a.strip_suffix('\''))`
unfoldable pub quoted : Text → Option Text
quoted arg = elim (strip_prefix (0x27 ∷ []) arg) [ none ↦ none | some a ↦ strip_suffix 0x27 a ]

abbrev pub only_byte : ℕ × List ℕ → Checked ErrorType SourceOperand
only_byte (b, []) = ok (byte b)
only_byte (b, _ ∷ _) = err character_literal_too_long

unfoldable pub parse_number : Text → Checked ErrorType SourceOperand
parse_number arg =
    let (radix, num) = radix_of arg in
    elim (strip_suffix b'b' num) [
      | some num ↦ operand_or arg byte (word_from_str_radix 7 num radix)
      | none ↦ elim (strip_suffix b'w' num) [
        | some num ↦ operand_or arg wide (word_from_str_radix 15 num radix)
        | none ↦ elim (quoted arg) [
          | some a ↦ parse_bytechar (as_bytes a) >>= only_byte
          | none ↦ elim (signed_from_str_radix 31 num radix) [
            | some n ↦ ok (number n)
            | none ↦ ok (SourceOperand.label arg)
          ]
        ]
      ]
    ]

-- The loop of `.string`, on fuel; each turn takes a byte at least.
unfoldable pub parse_string : ℕ → List ℕ → Checked ErrorType (List ℕ)
parse_string fuel [] = ok []
parse_string zero (b ∷ arg) = panics
parse_string (suc fuel) (b ∷ arg) = do
  (c, rest) ← parse_bytechar (b ∷ arg)
  string ← parse_string fuel rest
  ok (c ∷ string)

-- ===== src/Source/Operand/Format.antt =====
-- The operand formats of the instruction set, by the opcode, and what kinds of operands an
-- assembled operand has (src/source/mod.rs).
use telda.Prelude.{ℕ, List, [], ◌∷◌, ◌<◌, ◌==◌, ltb, if◌then◌else◌}
use telda.Isa.Opcode
use telda.Isa.Table.{entry_at}
use telda.Source.{
  Wide, DataOperand, nothing, byte_register, wide_register, immediate_byte, immediate_wide,
  byte_imm, wide_imm, wide_imm_byte, wide_imm_wide, two_wide_one_byte, byte_wide_imm, two_wide_imm,
  byte_two_wide, three_byte, three_wide, four_byte, four_wide,
}

-- A half byte that names a byte register or a wide one, that is an option, or that is unused; and
-- numbers.
pub data Field : Type 0 where
  byte_field wide_field option_number unused byte_number wide_number : Field

-- What an instruction takes after its opcode.
pub data Form : Type 0 where
  bare : Form
  one : Field → Form
  pair : Field → Field → Form
  pair_with : Field → Field → Field → Form
  two_pairs : Field → Field → Field → Field → Form

-- The fields in the order in which they are written.
unfoldable pub form : DataOperand → Form
form nothing = bare
form (byte_register _) = pair byte_field unused
form (wide_register _) = pair wide_field unused
form (immediate_byte _) = one byte_number
form (immediate_wide _) = one wide_number
form (byte_imm _ _) = pair_with byte_field unused byte_number
form (wide_imm _ _) = pair_with wide_field unused wide_number
form (wide_imm_byte _ _ _) = pair_with wide_field byte_field wide_number
form (wide_imm_wide _ _ _) = pair_with wide_field wide_field wide_number
form (two_wide_one_byte _ _ _) = two_pairs wide_field wide_field byte_field unused
form (byte_wide_imm _ _ _) = pair_with byte_field wide_field wide_number
form (two_wide_imm _ _ _) = pair_with wide_field wide_field wide_number
form (byte_two_wide _ _ _) = two_pairs byte_field wide_field wide_field unused
form (three_byte _ _ _) = two_pairs byte_field byte_field byte_field unused
form (three_wide _ _ _) = two_pairs wide_field wide_field wide_field unused
form (four_byte _ _ _ _) = two_pairs byte_field byte_field byte_field byte_field
form (four_wide _ _ _ _) = two_pairs wide_field wide_field wide_field wide_field

abbrev pub three_bytes : Form
three_bytes = two_pairs byte_field byte_field byte_field unused

abbrev pub three_wides : Form
three_wides = two_pairs wide_field wide_field wide_field unused

abbrev pub four_bytes : Form
four_bytes = two_pairs byte_field byte_field byte_field byte_field

abbrev pub four_wides : Form
four_wides = two_pairs wide_field wide_field wide_field wide_field

-- The fields of the instructions with operands, as the table of README.md has them. The second half byte of
-- `ldi_w` is an option, which tells a load from a jump.
abbrev pub formats : List (ℕ × Form)
formats =
    (Opcode.push_b, pair byte_field unused)
    ∷ (Opcode.push_w, pair wide_field unused)
    ∷ (Opcode.pop_b, pair byte_field unused)
    ∷ (Opcode.pop_w, pair wide_field unused)
    ∷ (Opcode.call, one wide_number)
    ∷ (Opcode.ret, one byte_number)
    ∷ (Opcode.store_bi, pair_with wide_field byte_field wide_number)
    ∷ (Opcode.store_wi, pair_with wide_field wide_field wide_number)
    ∷ (Opcode.store_br, two_pairs wide_field wide_field byte_field unused)
    ∷ (Opcode.store_wr, three_wides)
    ∷ (Opcode.load_bi, pair_with byte_field wide_field wide_number)
    ∷ (Opcode.load_wi, pair_with wide_field wide_field wide_number)
    ∷ (Opcode.load_br, two_pairs byte_field wide_field wide_field unused)
    ∷ (Opcode.load_wr, three_wides)
    ∷ (Opcode.jez, one wide_number)
    ∷ (Opcode.jlt, one wide_number)
    ∷ (Opcode.jle, one wide_number)
    ∷ (Opcode.jgt, one wide_number)
    ∷ (Opcode.jge, one wide_number)
    ∷ (Opcode.jnz, one wide_number)
    ∷ (Opcode.jo, one wide_number)
    ∷ (Opcode.jno, one wide_number)
    ∷ (Opcode.jb, one wide_number)
    ∷ (Opcode.jae, one wide_number)
    ∷ (Opcode.ja, one wide_number)
    ∷ (Opcode.jbe, one wide_number)
    ∷ (Opcode.ldi_b, pair_with byte_field unused byte_number)
    ∷ (Opcode.ldi_w, pair_with wide_field option_number wide_number)
    ∷ (Opcode.add_b, three_bytes)
    ∷ (Opcode.add_w, three_wides)
    ∷ (Opcode.sub_b, three_bytes)
    ∷ (Opcode.sub_w, three_wides)
    ∷ (Opcode.and_b, three_bytes)
    ∷ (Opcode.and_w, three_wides)
    ∷ (Opcode.or_b, three_bytes)
    ∷ (Opcode.or_w, three_wides)
    ∷ (Opcode.xor_b, three_bytes)
    ∷ (Opcode.xor_w, three_wides)
    ∷ (Opcode.shl_b, three_bytes)
    ∷ (Opcode.shl_w, three_wides)
    ∷ (Opcode.asr_b, three_bytes)
    ∷ (Opcode.asr_w, three_wides)
    ∷ (Opcode.lsr_b, three_bytes)
    ∷ (Opcode.lsr_w, three_wides)
    ∷ (Opcode.div_b, four_bytes)
    ∷ (Opcode.div_w, four_wides)
    ∷ (Opcode.mul_b, four_bytes)
    ∷ (Opcode.mul_w, four_wides)
    ∷ []

-- All other opcodes that the assembler can write have no operands.
unfoldable pub operand_form : ℕ → Form
unfolding entry_at
operand_form opcode = entry_at formats bare opcode

-- `ldi_w` is given its option as a wide register, R0 for a load and R1 for a jump.
abbrev pub with_option : DataOperand → Form
with_option (two_wide_imm r o w) =
    if ltb o 2
    then pair_with wide_field option_number wide_number
    else pair_with wide_field wide_field wide_number
with_option d = form d

-- The fields of an operand, for an opcode.
abbrev pub form_for : ℕ → DataOperand → Form
form_for opcode d = if opcode == Opcode.ldi_w then with_option d else form d

-- The ids of labels are below a bound.
abbrev pub WideFits : ℕ → Wide → Type 0
WideFits n (Wide.number _) = Unit
WideFits n (Wide.label id) = id < n

abbrev pub Fits : ℕ → DataOperand → Type 0
Fits n (immediate_wide w) = WideFits n w
Fits n (wide_imm _ w) = WideFits n w
Fits n (wide_imm_byte _ w _) = WideFits n w
Fits n (wide_imm_wide _ w _) = WideFits n w
Fits n (byte_wide_imm _ _ w) = WideFits n w
Fits n (two_wide_imm _ _ w) = WideFits n w
Fits n _ = Unit

-- ===== src/Source/Encode.antt =====
-- src/source/mod.rs: the bytes of an instruction's operands. What the assembler does at a label is
-- its closure `read_label`, a step on a state of its own.
pub mod Written
pub mod Decode
use telda.Prelude.{ℕ, List, [], ◌∷◌, ◌++◌, length, le_bytes16, u16}
use telda.U4.{pair}
use telda.Obj.{SegmentType}
use telda.Source.{
  Wide, LabelRead, DataOperand, nothing, byte_register, wide_register, immediate_byte,
  immediate_wide, byte_imm, wide_imm, wide_imm_byte, wide_imm_wide, two_wide_one_byte,
  byte_wide_imm, two_wide_imm, byte_two_wide, three_byte, three_wide, four_byte, four_wide,
}

module _ {S : Type 0} (read_label : ℕ → LabelRead → S → ℕ × S) where
  unfoldable pub parse_wide : Wide → SegmentType → ℕ → S → ℕ × S
  parse_wide (Wide.label l) segment position =
      read_label l (record { segment = segment; position = position })
  parse_wide (Wide.number n) segment position = λ s. (n, s)

  -- The wide number at the end of the memory.
  unfoldable pub write_wide : SegmentType → List ℕ → Wide → S → List ℕ × S
  unfolding parse_wide
  write_wide st mem w s =
      let (w, s) = parse_wide w st (u16 (length mem)) s in (mem ++ le_bytes16 w, s)

  unfoldable pub write_data_operand : SegmentType → List ℕ → DataOperand → S → List ℕ × S
  unfolding write_wide
  write_data_operand st mem nothing s = (mem, s)
  write_data_operand st mem (byte_register r) s = (mem ++ pair r 0 ∷ [], s)
  write_data_operand st mem (wide_register r) s = (mem ++ pair r 0 ∷ [], s)
  write_data_operand st mem (immediate_byte b) s = (mem ++ b ∷ [], s)
  write_data_operand st mem (immediate_wide w) s = write_wide st mem w s
  write_data_operand st mem (byte_imm r b) s = (mem ++ pair r 0 ∷ b ∷ [], s)
  write_data_operand st mem (wide_imm r w) s = write_wide st (mem ++ pair r 0 ∷ []) w s
  write_data_operand st mem (wide_imm_byte r1 w r2) s = write_wide st (mem ++ pair r1 r2 ∷ []) w s
  write_data_operand st mem (wide_imm_wide r1 w r2) s = write_wide st (mem ++ pair r1 r2 ∷ []) w s
  write_data_operand st mem (two_wide_one_byte r1 r2 r3) s = (mem ++ pair r1 r2 ∷ pair r3 0 ∷ [], s)
  write_data_operand st mem (byte_wide_imm r1 r2 w) s = write_wide st (mem ++ pair r1 r2 ∷ []) w s
  write_data_operand st mem (two_wide_imm r1 r2 w) s = write_wide st (mem ++ pair r1 r2 ∷ []) w s
  write_data_operand st mem (byte_two_wide r1 r2 r3) s = (mem ++ pair r1 r2 ∷ pair r3 0 ∷ [], s)
  write_data_operand st mem (three_byte r1 r2 r3) s = (mem ++ pair r1 r2 ∷ pair r3 0 ∷ [], s)
  write_data_operand st mem (three_wide r1 r2 r3) s = (mem ++ pair r1 r2 ∷ pair r3 0 ∷ [], s)
  write_data_operand st mem (four_byte r1 r2 r3 r4) s = (mem ++ pair r1 r2 ∷ pair r3 r4 ∷ [], s)
  write_data_operand st mem (four_wide r1 r2 r3 r4) s = (mem ++ pair r1 r2 ∷ pair r3 r4 ∷ [], s)

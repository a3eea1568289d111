-- ===== src/Source/Encode/Written.antt =====
-- src/source/mod.rs: how many bytes an operand takes, and the reads of its label.
use telda.Prelude.{ℕ, ◌+◌, ◌<◌, ◌≡◌, List, [], ◌∷◌, ◌++◌, length, length-append, arith}
use telda.U4.{pair}
use telda.Obj.{SegmentType}
use telda.Source.{
  Wide, LabelRead, DataOperand, nothing, byte_register, wide_register, immediate_byte,
  immediate_wide, byte_imm, wide_imm, wide_imm_byte, wide_imm_wide, two_wide_one_byte,
  byte_wide_imm, two_wide_imm, byte_two_wide, three_byte, three_wide, four_byte, four_wide,
}
use telda.Source.Operand.{size}
use telda.Source.Operand.Format.{Fits, WideFits}
use telda.Source.Encode.{parse_wide, write_wide, write_data_operand}

module _ {S : Type 0} (read_label : ℕ → LabelRead → S → ℕ × S) (st : SegmentType) where
  pub write_wide-length :
      (mem : List ℕ) (w : Wide) (s : S)
      → length (write_wide read_label st mem w s).0 ≡ length mem + 2
  unfolding write_wide
  write_wide-length mem w s = length-append mem _

  -- An operand is written in as many bytes as its size says.
  pub write_data_operand-length :
      (d : DataOperand) (mem : List ℕ) (s : S)
      → length (write_data_operand read_label st mem d s).0 ≡ length mem + size d
  unfolding write_data_operand size
  write_data_operand-length nothing mem s = omega arith
  write_data_operand-length (byte_register a) mem s = length-append mem _
  write_data_operand-length (wide_register a) mem s = length-append mem _
  write_data_operand-length (immediate_byte a) mem s = length-append mem _
  write_data_operand-length (immediate_wide w) mem s = write_wide-length mem w s
  write_data_operand-length (byte_imm a b) mem s = length-append mem _
  write_data_operand-length (wide_imm a w) mem s =
      omega (arith, write_wide-length (mem ++ pair a 0 ∷ []) w s, length-append mem (pair a 0 ∷ []))
  write_data_operand-length (wide_imm_byte a w b) mem s =
      omega (arith, write_wide-length (mem ++ pair a b ∷ []) w s, length-append mem (pair a b ∷ []))
  write_data_operand-length (wide_imm_wide a w b) mem s =
      omega (arith, write_wide-length (mem ++ pair a b ∷ []) w s, length-append mem (pair a b ∷ []))
  write_data_operand-length (two_wide_one_byte a b c) mem s = length-append mem _
  write_data_operand-length (byte_wide_imm a b w) mem s =
      omega (arith, write_wide-length (mem ++ pair a b ∷ []) w s, length-append mem (pair a b ∷ []))
  write_data_operand-length (two_wide_imm a b w) mem s =
      omega (arith, write_wide-length (mem ++ pair a b ∷ []) w s, length-append mem (pair a b ∷ []))
  write_data_operand-length (byte_two_wide a b c) mem s = length-append mem _
  write_data_operand-length (three_byte a b c) mem s = length-append mem _
  write_data_operand-length (three_wide a b c) mem s = length-append mem _
  write_data_operand-length (four_byte a b c d) mem s = length-append mem _
  write_data_operand-length (four_wide a b c d) mem s = length-append mem _

-- What every read of a label below a bound keeps, the writing of operands keeps.
module _ {S : Type 0} (read_label : ℕ → LabelRead → S → ℕ × S) (st : SegmentType) (P : S → Type 0)
    (n : ℕ)
    (keeps : (id position : ℕ) (s : S)
      → id < n
      → P s
      → P (read_label id (record { segment = st; position = position }) s).1) where
  pub write_wide-keeps :
      (mem : List ℕ) (w : Wide) (s : S)
      → WideFits n w
      → P s
      → P (write_wide read_label st mem w s).1
  unfolding write_wide parse_wide
  write_wide-keeps mem (Wide.number k) s fits h = h
  write_wide-keeps mem (Wide.label id) s fits h = keeps id _ s fits h

  pub write_data_operand-keeps :
      (d : DataOperand) (mem : List ℕ) (s : S)
      → Fits n d
      → P s
      → P (write_data_operand read_label st mem d s).1
  unfolding write_data_operand
  write_data_operand-keeps nothing mem s fits h = h
  write_data_operand-keeps (byte_register a) mem s fits h = h
  write_data_operand-keeps (wide_register a) mem s fits h = h
  write_data_operand-keeps (immediate_byte a) mem s fits h = h
  write_data_operand-keeps (immediate_wide w) mem s fits h = write_wide-keeps mem w s fits h
  write_data_operand-keeps (byte_imm a b) mem s fits h = h
  write_data_operand-keeps (wide_imm a w) mem s fits h =
      write_wide-keeps (mem ++ pair a 0 ∷ []) w s fits h
  write_data_operand-keeps (wide_imm_byte a w b) mem s fits h =
      write_wide-keeps (mem ++ pair a b ∷ []) w s fits h
  write_data_operand-keeps (wide_imm_wide a w b) mem s fits h =
      write_wide-keeps (mem ++ pair a b ∷ []) w s fits h
  write_data_operand-keeps (two_wide_one_byte a b c) mem s fits h = h
  write_data_operand-keeps (byte_wide_imm a b w) mem s fits h =
      write_wide-keeps (mem ++ pair a b ∷ []) w s fits h
  write_data_operand-keeps (two_wide_imm a b w) mem s fits h =
      write_wide-keeps (mem ++ pair a b ∷ []) w s fits h
  write_data_operand-keeps (byte_two_wide a b c) mem s fits h = h
  write_data_operand-keeps (three_byte a b c) mem s fits h = h
  write_data_operand-keeps (three_wide a b c) mem s fits h = h
  write_data_operand-keeps (four_byte a b c d) mem s fits h = h
  write_data_operand-keeps (four_wide a b c d) mem s fits h = h

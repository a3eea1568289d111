-- ===== src/Source/Encode/Decode.antt =====
-- src/source/mod.rs: the bytes of an operand, against the reading of operands by the handlers: half
-- bytes by `U4::paired`, numbers from their little-endian bytes.
use telda.Prelude.{
  ℕ, ◌<◌, ◌≡◌, refl, sym, ap, List, [], ◌∷◌, ◌++◌, length, arith, IsByte, IsWide, wide_of,
  wide_of-bytes, le_bytes16, low_byte, high_byte, u16,
}
use telda.U4.{pair, paired, paired-pair}
use telda.Obj.{SegmentType}
use telda.Source.{
  Wide, LabelRead, DataOperand, nothing, byte_register, wide_register, immediate_byte,
  immediate_wide, byte_imm, wide_imm, wide_imm_byte, wide_imm_wide, two_wide_one_byte,
  byte_wide_imm, two_wide_imm, byte_two_wide, three_byte, three_wide, four_byte, four_wide,
}
use telda.Source.Operand.{size}
use telda.Source.Operand.Format.{
  Form, byte_number, wide_number, one, pair_with, two_pairs, form, Fits, WideFits,
}
use telda.Source.Encode.{parse_wide, write_wide, write_data_operand}

-- What is read from the bytes after an opcode of a form.
unfoldable pub decode : Form → List ℕ → List ℕ
decode (one byte_number) (n ∷ _) = n ∷ []
decode (one wide_number) (l ∷ h ∷ _) = wide_of l h ∷ []
decode (Form.pair _ _) (p ∷ _) = (paired p).0 ∷ (paired p).1 ∷ []
decode (pair_with _ _ byte_number) (p ∷ n ∷ _) = (paired p).0 ∷ (paired p).1 ∷ n ∷ []
decode (pair_with _ _ wide_number) (p ∷ l ∷ h ∷ _) = (paired p).0 ∷ (paired p).1 ∷ wide_of l h ∷ []
decode (two_pairs _ _ _ _) (p ∷ q ∷ _) =
    (paired p).0 ∷ (paired p).1 ∷ (paired q).0 ∷ (paired q).1 ∷ []
decode _ _ = []

-- The registers of an operand and its number, with the address of a label.
unfoldable pub wide_value : (ℕ → ℕ) → Wide → ℕ
wide_value location (Wide.number n) = n
wide_value location (Wide.label id) = location id

unfoldable pub values : (ℕ → ℕ) → DataOperand → List ℕ
unfolding wide_value
values location nothing = []
values location (byte_register a) = a ∷ 0 ∷ []
values location (wide_register a) = a ∷ 0 ∷ []
values location (immediate_byte n) = n ∷ []
values location (immediate_wide w) = wide_value location w ∷ []
values location (byte_imm a n) = a ∷ 0 ∷ n ∷ []
values location (wide_imm a w) = a ∷ 0 ∷ wide_value location w ∷ []
values location (wide_imm_byte a w b) = a ∷ b ∷ wide_value location w ∷ []
values location (wide_imm_wide a w b) = a ∷ b ∷ wide_value location w ∷ []
values location (two_wide_one_byte a b c) = a ∷ b ∷ c ∷ 0 ∷ []
values location (byte_wide_imm a b w) = a ∷ b ∷ wide_value location w ∷ []
values location (two_wide_imm a b w) = a ∷ b ∷ wide_value location w ∷ []
values location (byte_two_wide a b c) = a ∷ b ∷ c ∷ 0 ∷ []
values location (three_byte a b c) = a ∷ b ∷ c ∷ 0 ∷ []
values location (three_wide a b c) = a ∷ b ∷ c ∷ 0 ∷ []
values location (four_byte a b c d) = a ∷ b ∷ c ∷ d ∷ []
values location (four_wide a b c d) = a ∷ b ∷ c ∷ d ∷ []

abbrev pub WideValue : Wide → Type 0
WideValue (Wide.number n) = IsWide n
WideValue (Wide.label id) = Unit

-- Registers are four-bit numbers, and other numbers fit their width.
abbrev pub IsOperand : DataOperand → Type 0
IsOperand nothing = Unit
IsOperand (byte_register a) = (a < 16)
IsOperand (wide_register a) = (a < 16)
IsOperand (immediate_byte n) = IsByte n
IsOperand (immediate_wide w) = WideValue w
IsOperand (byte_imm a n) = (a < 16) × IsByte n
IsOperand (wide_imm a w) = (a < 16) × WideValue w
IsOperand (wide_imm_byte a w b) = (a < 16) × (b < 16) × WideValue w
IsOperand (wide_imm_wide a w b) = (a < 16) × (b < 16) × WideValue w
IsOperand (two_wide_one_byte a b c) = (a < 16) × (b < 16) × (c < 16)
IsOperand (byte_wide_imm a b w) = (a < 16) × (b < 16) × WideValue w
IsOperand (two_wide_imm a b w) = (a < 16) × (b < 16) × WideValue w
IsOperand (byte_two_wide a b c) = (a < 16) × (b < 16) × (c < 16)
IsOperand (three_byte a b c) = (a < 16) × (b < 16) × (c < 16)
IsOperand (three_wide a b c) = (a < 16) × (b < 16) × (c < 16)
IsOperand (four_byte a b c d) = (a < 16) × (b < 16) × (c < 16) × (d < 16)
IsOperand (four_wide a b c d) = (a < 16) × (b < 16) × (c < 16) × (d < 16)

append_assoc : (mem : List ℕ) (b : ℕ) (rest : List ℕ) → (mem ++ b ∷ []) ++ rest ≡ mem ++ b ∷ rest
append_assoc [] b rest = refl
append_assoc (x ∷ mem) b rest = ap (λ l. x ∷ l) (append_assoc mem b rest)

append_nil : (mem : List ℕ) → mem ++ [] ≡ mem
append_nil [] = refl
append_nil (x ∷ mem) = ap (λ l. x ∷ l) (append_nil mem)

module _ {S : Type 0} (read_label : ℕ → LabelRead → S → ℕ × S) (st : SegmentType) (location : ℕ → ℕ)
    (n : ℕ) where
  wide_value-read :
      (w : Wide) (s : S)
      → WideFits n w
      → WideValue w
      → ((id : ℕ) (lr : LabelRead) → id < n → (read_label id lr s).0 ≡ location id)
      → ((id : ℕ) → id < n → IsWide (location id))
      → (position : ℕ)
      → wide_of
          (low_byte (parse_wide read_label w st position s).0)
          (high_byte (parse_wide read_label w st position s).0)
        ≡ wide_value location w
  unfolding parse_wide wide_value
  wide_value-read (Wide.number k) s fits h known wides position = wide_of-bytes k h
  wide_value-read (Wide.label id) s fits h known wides position =
      rw (known id (record { segment = st; position = position }) fits)
        (wide_of-bytes (location id) (wides id fits))

  -- For an operand with registers and numbers in range, and a closure that gives the wide address
  -- of each label of it, the bytes that are written are as many as the operand's size says, and
  -- reading them the way its form is read gives its registers and its number, or the address of
  -- its label.
  pub write_data_operand-decode :
      (d : DataOperand) (mem : List ℕ) (s : S)
      → Fits n d
      → IsOperand d
      → ((id : ℕ) (lr : LabelRead) → id < n → (read_label id lr s).0 ≡ location id)
      → ((id : ℕ) → id < n → IsWide (location id))
      → (bytes : List ℕ) × ((write_data_operand read_label st mem d s).0 ≡ mem ++ bytes)
        × (length bytes ≡ size d)
        × (decode (form d) bytes ≡ values location d)
  unfolding write_data_operand write_wide size form decode values
  write_data_operand-decode nothing mem s fits h known wides =
      ([], sym (append_nil mem), refl, refl)
  write_data_operand-decode (byte_register a) mem s fits h known wides =
      (pair a 0 ∷ [], refl, refl, rw (paired-pair a 0 h (omega arith)).0 refl)
  write_data_operand-decode (wide_register a) mem s fits h known wides =
      (pair a 0 ∷ [], refl, refl, rw (paired-pair a 0 h (omega arith)).0 refl)
  write_data_operand-decode (immediate_byte n) mem s fits h known wides = (n ∷ [], refl, refl, refl)
  write_data_operand-decode (immediate_wide w) mem s fits h known wides = (
    le_bytes16 (parse_wide read_label w st (u16 (length mem)) s).0,
    refl,
    refl,
    rw (wide_value-read w s fits h known wides (u16 (length mem))) refl,
  )
  write_data_operand-decode (byte_imm a n) mem s fits h known wides =
      (pair a 0 ∷ n ∷ [], refl, refl, rw (paired-pair a 0 h.0 (omega arith)).0 refl)
  write_data_operand-decode (wide_imm a w) mem s fits h known wides = (
    pair a 0 ∷ le_bytes16 (parse_wide read_label w st (u16 (length (mem ++ pair a 0 ∷ []))) s).0,
    append_assoc mem (pair a 0) _,
    refl,
    rw
        (
          (paired-pair a 0 h.0 (omega arith)).0,
          wide_value-read w s fits h.1 known wides (u16 (length (mem ++ pair a 0 ∷ []))),
        )
        refl,
  )
  write_data_operand-decode (wide_imm_byte a w b) mem s fits h known wides = (
    pair a b ∷ le_bytes16 (parse_wide read_label w st (u16 (length (mem ++ pair a b ∷ []))) s).0,
    append_assoc mem (pair a b) _,
    refl,
    rw
        (
          (paired-pair a b h.0 h.1).0,
          wide_value-read w s fits h.2 known wides (u16 (length (mem ++ pair a b ∷ []))),
        )
        refl,
  )
  write_data_operand-decode (wide_imm_wide a w b) mem s fits h known wides = (
    pair a b ∷ le_bytes16 (parse_wide read_label w st (u16 (length (mem ++ pair a b ∷ []))) s).0,
    append_assoc mem (pair a b) _,
    refl,
    rw
        (
          (paired-pair a b h.0 h.1).0,
          wide_value-read w s fits h.2 known wides (u16 (length (mem ++ pair a b ∷ []))),
        )
        refl,
  )
  write_data_operand-decode (two_wide_one_byte a b c) mem s fits h known wides = (
    pair a b ∷ pair c 0 ∷ [],
    refl,
    refl,
    rw ((paired-pair a b h.0 h.1).0, (paired-pair c 0 h.2 (omega arith)).0) refl,
  )
  write_data_operand-decode (byte_wide_imm a b w) mem s fits h known wides = (
    pair a b ∷ le_bytes16 (parse_wide read_label w st (u16 (length (mem ++ pair a b ∷ []))) s).0,
    append_assoc mem (pair a b) _,
    refl,
    rw
        (
          (paired-pair a b h.0 h.1).0,
          wide_value-read w s fits h.2 known wides (u16 (length (mem ++ pair a b ∷ []))),
        )
        refl,
  )
  write_data_operand-decode (two_wide_imm a b w) mem s fits h known wides = (
    pair a b ∷ le_bytes16 (parse_wide read_label w st (u16 (length (mem ++ pair a b ∷ []))) s).0,
    append_assoc mem (pair a b) _,
    refl,
    rw
        (
          (paired-pair a b h.0 h.1).0,
          wide_value-read w s fits h.2 known wides (u16 (length (mem ++ pair a b ∷ []))),
        )
        refl,
  )
  write_data_operand-decode (byte_two_wide a b c) mem s fits h known wides = (
    pair a b ∷ pair c 0 ∷ [],
    refl,
    refl,
    rw ((paired-pair a b h.0 h.1).0, (paired-pair c 0 h.2 (omega arith)).0) refl,
  )
  write_data_operand-decode (three_byte a b c) mem s fits h known wides = (
    pair a b ∷ pair c 0 ∷ [],
    refl,
    refl,
    rw ((paired-pair a b h.0 h.1).0, (paired-pair c 0 h.2 (omega arith)).0) refl,
  )
  write_data_operand-decode (three_wide a b c) mem s fits h known wides = (
    pair a b ∷ pair c 0 ∷ [],
    refl,
    refl,
    rw ((paired-pair a b h.0 h.1).0, (paired-pair c 0 h.2 (omega arith)).0) refl,
  )
  write_data_operand-decode (four_byte a b c d) mem s fits h known wides = (
    pair a b ∷ pair c d ∷ [],
    refl,
    refl,
    rw ((paired-pair a b h.0 h.1).0, (paired-pair c d h.2 h.3).0) refl,
  )
  write_data_operand-decode (four_wide a b c d) mem s fits h known wides = (
    pair a b ∷ pair c d ∷ [],
    refl,
    refl,
    rw ((paired-pair a b h.0 h.1).0, (paired-pair c d h.2 h.3).0) refl,
  )

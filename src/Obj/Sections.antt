-- ===== src/Obj/Sections.antt =====
-- src/aalv/obj/sec_impl.rs: the bytes of the sections of an object file. A section is read from its
-- own bytes, up to their end.
use telda.Prelude.{
  ℕ, true, false, not, List, [], ◌∷◌, ◌++◌, ◌==◌, if◌then◌else◌, le_bytes16, wide_of,
}
use telda.Obj.{
  SegmentType, unknown, zero, data_segment, ro_data, text, heap, Entry, Flags, BinarySegment,
  SymbolDefinition, RelocationEntry,
}

-- The result of reading: a value, one of the two kinds of error, or a panic.
pub data Decoded (A : Type 0) : Type 0 where
  ok : A → Decoded A
  invalid_data unexpected_eof panics : Decoded A

infixl 5 ◌>>=◌
abbrev pub ◌>>=◌ : {A B : Type 0} → Decoded A → (A → Decoded B) → Decoded B
ok a >>= f = f a
invalid_data >>= f = invalid_data
unexpected_eof >>= f = unexpected_eof
panics >>= f = panics

-- `as u8`
unfoldable pub segment_type_code : SegmentType → ℕ
segment_type_code unknown = 0xff
segment_type_code zero = 0
segment_type_code data_segment = 0x10
segment_type_code ro_data = 0x18
segment_type_code text = 0x20
segment_type_code heap = 0x70

unfoldable pub segment_type_from_u8 : ℕ → Decoded SegmentType
segment_type_from_u8 n =
    if n == 0xff
    then ok unknown
    else if n == 0
    then ok zero
    else if n == 0x10
    then ok data_segment
    else if n == 0x18
    then ok ro_data
    else if n == 0x20
    then ok text
    else if n == 0x70
    then ok heap
    else invalid_data

unfoldable pub write_entry : Entry → List ℕ
write_entry e = segment_type_code e.segment ∷ le_bytes16 e.location

unfoldable pub read_entry : List ℕ → Decoded Entry
read_entry (stype ∷ l ∷ h ∷ _) = do
  segment ← segment_type_from_u8 stype
  ok (record { segment = segment; location = wide_of l h })
read_entry _ = unexpected_eof

-- The letter `R`.
abbrev pub readable_flag : ℕ
readable_flag = 0x52

unfoldable pub write_flags : Flags → List ℕ
write_flags f = if f.readable_text then readable_flag ∷ [] else []

abbrev pub read_flags_from : Flags → List ℕ → Decoded Flags
read_flags_from f [] = ok f
read_flags_from f (c ∷ cs) =
    if c == readable_flag
    then read_flags_from (record f { readable_text = true }) cs
    else invalid_data

unfoldable pub read_flags : List ℕ → Decoded Flags
read_flags cs = read_flags_from (record { readable_text = false }) cs

-- `HeapSize` and `StackSize`
unfoldable pub write_size : ℕ → List ℕ
write_size size = le_bytes16 size

unfoldable pub read_size : List ℕ → Decoded ℕ
read_size (l ∷ h ∷ _) = ok (wide_of l h)
read_size _ = unexpected_eof

unfoldable pub write_segment : BinarySegment → List ℕ
write_segment s = le_bytes16 s.offset ++ segment_type_code s.stype ∷ s.bytes

unfoldable pub read_segment : List ℕ → Decoded BinarySegment
read_segment (ol ∷ oh ∷ stype ∷ bytes) = do
  stype ← segment_type_from_u8 stype
  ok (record { offset = wide_of ol oh; stype = stype; bytes = bytes })
read_segment _ = unexpected_eof

unfoldable pub write_relocations : List RelocationEntry → List ℕ
write_relocations [] = []
write_relocations (e ∷ entries) =
    segment_type_code e.reference_segment
    ∷ (le_bytes16 e.reference_location ++ (le_bytes16 e.symbol_index ++ write_relocations entries))

-- Fewer than five bytes at the end are left unread.
unfoldable pub read_relocations : List ℕ → Decoded (List RelocationEntry)
read_relocations (stype ∷ ol1 ∷ oh1 ∷ ol2 ∷ oh2 ∷ bytes) = do
  reference_segment ← segment_type_from_u8 stype
  entries ← read_relocations bytes
  ok (
      record {
        reference_segment = reference_segment;
        reference_location = wide_of ol1 oh1;
        symbol_index = wide_of ol2 oh2;
      }
      ∷ entries)
read_relocations _ = ok []

-- A local symbol is marked by a blank before its name.
abbrev pub blank : ℕ
blank = 0x20

unfoldable pub write_symbols : List SymbolDefinition → List ℕ
write_symbols [] = []
write_symbols (s ∷ symbols) =
    (if s.is_global then [] else blank ∷ [])
    ++ (s.name
        ++ 0 ∷ segment_type_code s.segment_type ∷ (le_bytes16 s.location ++ write_symbols symbols))

-- Where in a symbol the reader is, with what it has of it.
pub data Cursor : Type 0 where
  in_name : List ℕ → Cursor
  at_type : List ℕ → Cursor
  at_low : List ℕ → ℕ → Cursor
  at_high : List ℕ → ℕ → ℕ → Cursor

-- `lossy` is `String::from_utf8_lossy`. The first byte of an empty name is out of range.
module _ (lossy : List ℕ → List ℕ) where
  unfoldable pub symbol_of : List ℕ → SegmentType → ℕ → Decoded SymbolDefinition
  symbol_of [] segment_type location = panics
  symbol_of (c ∷ name) segment_type location =
      let is_global = not (c == blank) in
      ok (record {
        name = if is_global then lossy (c ∷ name) else lossy name;
        is_global = is_global;
        segment_type = segment_type;
        location = location;
      })

  unfoldable pub read_symbols_from : Cursor → List ℕ → Decoded (List SymbolDefinition)
  unfolding symbol_of
  read_symbols_from (in_name []) [] = ok []
  read_symbols_from (in_name (c ∷ name)) [] = unexpected_eof
  read_symbols_from (in_name name) (b ∷ bytes) =
      read_symbols_from (if b == 0 then at_type name else in_name (name ++ b ∷ [])) bytes
  read_symbols_from (at_type name) (b ∷ bytes) = read_symbols_from (at_low name b) bytes
  read_symbols_from (at_low name stype) (b ∷ bytes) = read_symbols_from (at_high name stype b) bytes
  read_symbols_from (at_high name stype ol) (b ∷ bytes) = do
    segment_type ← segment_type_from_u8 stype
    symbol ← symbol_of name segment_type (wide_of ol b)
    symbols ← read_symbols_from (in_name []) bytes
    ok (symbol ∷ symbols)
  read_symbols_from _ [] = unexpected_eof

  unfoldable pub read_symbols : List ℕ → Decoded (List SymbolDefinition)
  unfolding read_symbols_from
  read_symbols bytes = read_symbols_from (in_name []) bytes
